-- ===== src/Firmware/FlashConfig/Laws.antt =====
-- The configuration survives a restart, and a bad sector never gets through.
use flexi_ninja.Prelude.{ℕ, zero, suc, refl, sym, ap, List, [], arith, length, take, drop}
use flexi_ninja.Prelude.{length-append, word, ◌<◌, ◌≡◌, ◌∙◌, ◌∷◌, ◌++◌}
use mathlib.Core.List.{append_assoc}
use flexi_ninja.Transmission.Layout.{word_whole, half_whole}
use flexi_ninja.Firmware.FlashConfig.{
  Configuration, config_version, config_bytes, config_of_bytes, seal, sum_bytes, numbers,
  calculate_checksum_flash,
}

-- The arrays have their lengths, and the numbers their widths.
pub record IsConfiguration (c : Configuration) : Type 0 where
  pub mac : length c.mac ≡ 6
  pub ip : length c.ip ≡ 4
  pub sn : length c.sn ≡ 4
  pub gw : length c.gw ≡ 4
  pub dns : length c.dns ≡ 4
  pub port : c.port < 65536
  pub timeout : c.timeout < word
  pub cfg_version : c.cfg_version < 65536

take-front : (n : ℕ) (xs ys : List ℕ) → length xs ≡ n → take n (xs ++ ys) ≡ xs
take-front zero [] ys h = refl
take-front zero (x ∷ xs) ys h = absurd (omega arith)
take-front (suc n) [] ys h = absurd (omega arith)
take-front (suc n) (x ∷ xs) ys h = ap (λ r. x ∷ r) (take-front n xs ys (omega arith))

drop-front : (n : ℕ) (xs ys : List ℕ) → length xs ≡ n → drop n (xs ++ ys) ≡ ys
drop-front zero [] ys h = refl
drop-front zero (x ∷ xs) ys h = absurd (omega arith)
drop-front (suc n) [] ys h = absurd (omega arith)
drop-front (suc n) (x ∷ xs) ys h = drop-front n xs ys (omega arith)

-- The five arrays and what follows them, with bytes behind.
spread : Configuration → List ℕ → List ℕ
spread c rest = c.mac ++ (c.ip ++ (c.sn ++ (c.gw ++ (c.dns ++ (numbers c ++ (c.checksum ∷ rest))))))

config_of_bytes-spread :
    (c : Configuration) (rest : List ℕ) → IsConfiguration c → config_of_bytes (spread c rest) ≡ c
unfolding config_of_bytes spread
config_of_bytes-spread c rest v =
    let r5 = numbers c ++ (c.checksum ∷ rest) in
    let r4 = c.dns ++ r5 in
    let r3 = c.gw ++ r4 in
    let r2 = c.sn ++ r3 in
    let r1 = c.ip ++ r2 in
    rw (drop-front 6 c.mac r1 v.mac, take-front 6 c.mac r1 v.mac)
      (rw (drop-front 4 c.ip r2 v.ip, take-front 4 c.ip r2 v.ip)
        (rw (drop-front 4 c.sn r3 v.sn, take-front 4 c.sn r3 v.sn)
          (rw (drop-front 4 c.gw r4 v.gw, take-front 4 c.gw r4 v.gw)
            (rw (drop-front 4 c.dns r5 v.dns, take-front 4 c.dns r5 v.dns)
              (rw
                (
                  half_whole c.port v.port,
                  half_whole c.cfg_version v.cfg_version,
                  word_whole c.timeout v.timeout,
                )
                refl)))))

append_spread : (c : Configuration) (rest : List ℕ) → config_bytes c ++ rest ≡ spread c rest
unfolding config_bytes spread
append_spread c rest = simp append_assoc

-- The struct reads back from its bytes, whatever follows them in the sector.
pub config_of_bytes-config_bytes :
    (c : Configuration) (rest : List ℕ)
    → IsConfiguration c
    → config_of_bytes (config_bytes c ++ rest) ≡ c
config_of_bytes-config_bytes c rest v =
    ap config_of_bytes (append_spread c rest) ∙ config_of_bytes-spread c rest v

body : Configuration → List ℕ
body c = c.mac ++ (c.ip ++ (c.sn ++ (c.gw ++ (c.dns ++ numbers c))))

config_bytes-body : (c : Configuration) → config_bytes c ≡ body c ++ (c.checksum ∷ [])
unfolding config_bytes body
config_bytes-body c = simp append_assoc

length-body : (c : Configuration) → IsConfiguration c → length (body c) ≡ 31
unfolding body
length-body c v = rw (length-append c.mac (c.ip ++ (c.sn ++ (c.gw ++ (c.dns ++ numbers c))))) (
    rw (length-append c.ip (c.sn ++ (c.gw ++ (c.dns ++ numbers c)))) (
      rw (length-append c.sn (c.gw ++ (c.dns ++ numbers c))) (
        rw (length-append c.gw (c.dns ++ numbers c))
          (rw (length-append c.dns (numbers c)) (omega (arith, v.mac, v.ip, v.sn, v.gw, v.dns))))))

-- The checksum covers all but itself.
checksum-body :
    (c : Configuration) → IsConfiguration c → calculate_checksum_flash c ≡ sum_bytes 0 (body c)
unfolding calculate_checksum_flash
checksum-body c v =
    rw (config_bytes-body c, take-front 31 (body c) (c.checksum ∷ []) (length-body c v)) refl

pub seal-IsConfiguration : (c : Configuration) → IsConfiguration c → IsConfiguration (seal c)
seal-IsConfiguration c v = record {
  mac = v.mac;
  ip = v.ip;
  sn = v.sn;
  gw = v.gw;
  dns = v.dns;
  port = v.port;
  timeout = v.timeout;
  cfg_version = v.cfg_version;
}

-- The checksum of the current version that `load_config_from_flash` asks for.
pub record Accepted (c : Configuration) : Type 0 where
  pub checksum : calculate_checksum_flash c ≡ c.checksum
  pub cfg_version : c.cfg_version ≡ config_version

body-seal : (c : Configuration) → body (seal c) ≡ body c
unfolding body
body-seal c = refl

pub seal-Accepted :
    (c : Configuration) → IsConfiguration c → c.cfg_version ≡ config_version → Accepted (seal c)
seal-Accepted c v e = record {
  checksum =
      checksum-body (seal c) (seal-IsConfiguration c v)
      ∙ ap (sum_bytes 0) (body-seal c)
      ∙ sym (checksum-body c v);
  cfg_version = e;
}

pub seal-twice : (c : Configuration) → IsConfiguration c → seal (seal c) ≡ seal c
seal-twice c v =
    ap (λ n. record c { checksum = n })
      (checksum-body (seal c) (seal-IsConfiguration c v)
        ∙ ap (sum_bytes 0) (body-seal c)
        ∙ sym (checksum-body c v))
