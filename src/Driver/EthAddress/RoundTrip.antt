-- ===== src/Driver/EthAddress/RoundTrip.antt =====
-- Addresses written one after the other are read back.
use flexi_ninja.Prelude.{ℕ, zero, suc, refl, sym, ap, true, false, some, List, [], map, arith}
use flexi_ninja.Prelude.{ltb, take, All, ◌+◌, ◌-◌, ◌*◌, ◌≤◌, ◌<◌, ◌≡◌, ◌≢◌, ◌∙◌, ◌∷◌, ◌++◌, ◌==◌}
use mathlib.Core.List.{append-nil, append_assoc}
use flexi_ninja.Driver.EthAddress.{
  is_digit, is_space, token, tokens, cut, digits, skip_spaces, sign, strtol, IpPort, parse_parts,
  parse_cut, parse_entry, keep, parse_entries, parse_ip_port,
}

-- An address as it is written: the characters of the ip, and the digits of the port.
pub record Written : Type 0 where
  pub ip_text : List ℕ
  pub port_text : List ℕ

-- The value of a string of digits.
abbrev pub decimal : ℕ → List ℕ → ℕ
decimal n [] = n
decimal n (c ∷ cs) = decimal (n * 10 + (c - 48)) cs

-- No separator in the ip, a port of digits that fits.
pub record IsWritten (w : Written) : Type 0 where
  pub no_separator : All (λ c. (c ≢ 58) × (c ≢ 59)) w.ip_text
  pub some_digits : w.port_text ≢ []
  pub all_digits : All (λ c. is_digit c ≡ true) w.port_text
  pub in_range : decimal 0 w.port_text ≤ 65535

abbrev pub entry_text : Written → List ℕ
entry_text w = w.ip_text ++ (58 ∷ w.port_text)

-- Entries with a semicolon between any two.
abbrev pub joined : Written → List Written → List ℕ
joined w [] = entry_text w
joined w (v ∷ vs) = entry_text w ++ (59 ∷ joined v vs)

abbrev pub read_back : Written → IpPort
read_back w = record { ip = take 15 w.ip_text; port = decimal 0 w.port_text }

digits_all :
    (n : ℕ) (cs : List ℕ) → All (λ c. is_digit c ≡ true) cs → digits n cs ≡ (decimal n cs, [])
unfolding digits
digits_all n [] h = refl
digits_all n (c ∷ cs) h = rw h.0 (digits_all (n * 10 + (c - 48)) cs h.1)

cut_at :
    (ip rest : List ℕ)
    → All (λ c. (c ≢ 58) × (c ≢ 59)) ip
    → cut (ip ++ (58 ∷ rest)) ≡ some (ip, rest)
unfolding cut
cut_at [] rest h = refl
cut_at (c ∷ cs) rest h =
    let other : c == 58 ≡ false = ground (arith, h.0.0) in rw (other, cut_at cs rest h.1) refl

strtol_digits :
    (cs : List ℕ)
    → cs ≢ []
    → All (λ c. is_digit c ≡ true) cs
    → strtol cs ≡ (false, decimal 0 cs, [])
unfolding strtol skip_spaces sign
strtol_digits [] ne h = absurd (ne refl)
strtol_digits (c ∷ cs) ne h =
    let d : is_digit c ≡ true = h.0 in
    let no_space : is_space c ≡ false = ground (arith, d) in
    let no_minus : c == 45 ≡ false = ground (arith, d) in
    let no_plus : c == 43 ≡ false = ground (arith, d) in
    rw (no_space, no_minus, no_plus, digits_all 0 (c ∷ cs) h, d) refl

parse_parts_text :
    (ip port : List ℕ)
    → port ≢ []
    → All (λ c. is_digit c ≡ true) port
    → decimal 0 port ≤ 65535
    → parse_parts ip port ≡ some (record { ip = take 15 ip; port = decimal 0 port })
unfolding parse_parts
parse_parts_text ip port ne h small =
    let fits : ltb 65535 (decimal 0 port) ≡ false = ground (arith, small) in
    rw (strtol_digits port ne h, fits) refl

parse_entry_text : (w : Written) → IsWritten w → parse_entry (entry_text w) ≡ some (read_back w)
unfolding parse_entry
parse_entry_text w h =
    ap parse_cut (cut_at w.ip_text w.port_text h.no_separator)
    ∙ parse_parts_text w.ip_text w.port_text h.some_digits h.all_digits h.in_range

-- Characters that are not a separator are added to the token at hand.
tokens_through :
    (cur xs rest : List ℕ)
    → All (λ c. c ≢ 59) xs
    → tokens cur (xs ++ rest) ≡ tokens (cur ++ xs) rest
unfolding tokens
tokens_through cur [] rest h = rw (append-nil cur) refl
tokens_through cur (c ∷ xs) rest h =
    let other : c == 59 ≡ false = ground (arith, h.0) in
    rw other (
      tokens_through (cur ++ (c ∷ [])) xs rest h.1
      ∙ ap (λ t. tokens t rest) (append_assoc cur (c ∷ []) xs))

-- Neither part of an entry has a semicolon.
no_semicolon_ip : (xs : List ℕ) → All (λ c. (c ≢ 58) × (c ≢ 59)) xs → All (λ c. c ≢ 59) xs
no_semicolon_ip [] h = tt
no_semicolon_ip (c ∷ xs) h = (h.0.1, no_semicolon_ip xs h.1)

no_semicolon_port : (cs : List ℕ) → All (λ c. is_digit c ≡ true) cs → All (λ c. c ≢ 59) cs
no_semicolon_port [] h = tt
no_semicolon_port (c ∷ cs) h =
    let d : is_digit c ≡ true = h.0 in (λ e. ground (arith, d, e), no_semicolon_port cs h.1)

all_append : (P : ℕ → Type 0) (xs ys : List ℕ) → All P xs → All P ys → All P (xs ++ ys)
all_append P [] ys h k = k
all_append P (x ∷ xs) ys h k = (h.0, all_append P xs ys h.1 k)

entry_no_semicolon : (w : Written) → IsWritten w → All (λ c. c ≢ 59) (entry_text w)
entry_no_semicolon w h =
    let colon_too : All (λ (c : ℕ). c ≢ 59) (58 ∷ w.port_text) =
      (λ e. ground (arith, e), no_semicolon_port w.port_text h.all_digits) in
    all_append (λ c. c ≢ 59) w.ip_text (58 ∷ w.port_text) (no_semicolon_ip w.ip_text h.no_separator)
      colon_too

token_append : (xs : List ℕ) (c : ℕ) (ys : List ℕ) → token (xs ++ (c ∷ ys)) ≡ (xs ++ (c ∷ ys)) ∷ []
token_append [] c ys = refl
token_append (x ∷ xs) c ys = refl

-- An entry is a token, since it has its colon.
token_entry : (w : Written) → token (entry_text w) ≡ entry_text w ∷ []
token_entry w = token_append w.ip_text 58 w.port_text

tokens-joined :
    (w : Written) (ws : List Written)
    → All IsWritten (w ∷ ws)
    → tokens [] (joined w ws) ≡ map entry_text (w ∷ ws)
unfolding tokens
tokens-joined w [] h =
    ap (tokens []) (sym (append-nil (entry_text w)))
    ∙ tokens_through [] (entry_text w) [] (entry_no_semicolon w h.0)
    ∙ token_entry w
tokens-joined w (v ∷ vs) h =
    tokens_through [] (entry_text w) (59 ∷ joined v vs) (entry_no_semicolon w h.0)
    ∙ ap (λ ts. ts ++ tokens [] (joined v vs)) (token_entry w)
    ∙ ap (λ ts. entry_text w ∷ ts) (tokens-joined v vs h.1)

entries_joined :
    (ws : List Written) (n : ℕ)
    → All IsWritten ws
    → parse_entries (map entry_text ws) n ≡ take n (map read_back ws)
unfolding parse_entries
entries_joined [] zero h = refl
entries_joined [] (suc n) h = refl
entries_joined (w ∷ ws) zero h = refl
entries_joined (w ∷ ws) (suc n) h =
    ap (λ o. keep o (parse_entries (map entry_text ws)) n) (parse_entry_text w h.0)
    ∙ ap (λ xs. read_back w ∷ xs) (entries_joined ws n h.1)

-- Addresses that are written well, one after the other with a semicolon between any two, are read
-- back in their order, as many as there is room for (one at least), each with the first 15
-- characters of its ip and the value of its port. Written well is an ip without colon and
-- semicolon, and a port of digits with a value up to 65535.
pub parse_ip_port-joined :
    (w : Written) (ws : List Written) (max_count : ℕ)
    → All IsWritten (w ∷ ws)
    → 0 < max_count
    → parse_ip_port (some (joined w ws)) true max_count
      ≡ some (take max_count (map read_back (w ∷ ws)))
unfolding parse_ip_port
parse_ip_port-joined w ws max_count h room =
    let some_room : max_count == 0 ≡ false = ground (arith, room) in
    rw some_room (
      ap some (
        ap (λ ts. parse_entries ts max_count) (tokens-joined w ws h)
        ∙ entries_joined (w ∷ ws) max_count h))
