-- ===== src/Firmware/RamLoader/Image.antt =====
-- The expander starts only with the whole image in its place.
use flexi_ninja.Prelude.{ℕ, zero, suc, refl, sym, ap, inl, inr, Bool, true, false, none, some}
use flexi_ninja.Prelude.{List, [], arith, Bool-cases, length, take, drop, length-append}
use flexi_ninja.Prelude.{length-take, length-drop, take-append-drop, u32, word, ◌+◌, ◌≤◌, ◌<◌}
use flexi_ninja.Prelude.{◌≡◌, ◌∙◌, ◌∷◌, ◌++◌, ◌==◌, if◌then◌else◌}
use flexi_ninja.Transmission.Packet.{word_at, word16_at}
use flexi_ninja.Transmission.Layout.{word_whole, half_whole}
use flexi_ninja.Firmware.RamLoader.{
  ChunkAnswer, chunk_size, chunk_message, chunk_accepted, load_chunks, execute_message, ram_base,
  rp2040_load_and_run,
}

-- What the messages put into the memory, one after the other, and where.
abbrev pub payload : List (List ℕ) → List ℕ
payload [] = []
payload (m ∷ ms) = drop 7 m ++ payload ms

-- The address and the length in each message are those of its place.
abbrev pub Placed : ℕ → List (List ℕ) → Type 0
Placed base [] = Unit
Placed base (m ∷ ms) =
    (word_at m 1 ≡ base)
    × (word16_at m 5 ≡ length (drop 7 m))
    × Placed (base + length (drop 7 m)) ms

-- The boot loader took each message, from answer `k` on.
abbrev pub Taken : (ℕ → ChunkAnswer) → ℕ → List (List ℕ) → Type 0
Taken answers k [] = Unit
Taken answers k (m ∷ ms) = (chunk_accepted (answers k) ≡ true) × Taken answers (k + 1) ms

chunk_message-placed :
    (addr : ℕ) (bytes : List ℕ)
    → addr < word
    → length bytes < 65536
    → (word_at (chunk_message addr bytes) 1 ≡ addr)
      × (word16_at (chunk_message addr bytes) 5 ≡ length bytes)
      × (drop 7 (chunk_message addr bytes) ≡ bytes)
unfolding chunk_message
chunk_message-placed addr bytes ha hb = (word_whole addr ha, half_whole (length bytes) hb, refl)

small_chunk : (rest : List ℕ) → length (take chunk_size rest) < 65536
small_chunk rest = omega (arith, length-take chunk_size rest)

load_chunks-payload :
    (answers : ℕ → ChunkAnswer) (n k addr : ℕ) (rest : List ℕ)
    → addr + length rest < word
    → (load_chunks answers n k addr rest).1 ≡ true
    → (payload (load_chunks answers n k addr rest).0 ≡ rest)
      × Placed addr (load_chunks answers n k addr rest).0
      × Taken answers k (load_chunks answers n k addr rest).0
unfolding load_chunks chunk_message
load_chunks-payload answers zero k addr [] h = λ done. (refl, tt, tt)
load_chunks-payload answers zero k addr (b ∷ rest) h = λ done. absurd (ground (arith, done))
load_chunks-payload answers (suc n) k addr [] h = λ done. (refl, tt, tt)
load_chunks-payload answers (suc n) k addr (b ∷ rest) h =
    let image = b ∷ rest in
    let chunk = take chunk_size image in
    let left = drop chunk_size image in
    let some_left : (length image == 0) ≡ false = ground arith in
    let split : length chunk + length left ≡ length image =
      sym (length-append chunk left) ∙ ap length (take-append-drop chunk_size image) in
    let next : u32 (addr + length chunk) ≡ addr + length chunk = omega (arith, split) in
    let head = chunk_message-placed addr chunk (omega arith) (small_chunk image) in
    elim (Bool-cases (chunk_accepted (answers k))) [
      | inl ok ↦
          rw (some_left, ok, next)
            (λ done.
              let tail =
                load_chunks-payload answers n (k + 1) (addr + length chunk) left
                  (omega (arith, split)) done in
              (
                ap (λ r. chunk ++ r) tail.0 ∙ take-append-drop chunk_size image,
                (head.0, head.1, tail.1),
                (ok, tail.2),
              ))
      | inr refused ↦ rw (some_left, refused) (λ done. absurd (ground (arith, done)))
    ]

started : (done : Bool) (x m : List ℕ) → (if done then some x else none) ≡ some m → done ≡ true
started true x m h = refl
started false x m h = absurd (ground (arith, h))

-- The expander is told to start only when the boot loader has taken every chunk: whatever the bus
-- answers, if the start message goes out, each message before it was taken (written, answered, and
-- answered with 1), and they hold the whole image in its order, each with its length and with the
-- address that its first byte has behind 0x20002000.
pub rp2040_load_and_run-whole :
    (answers : ℕ → ChunkAnswer) (executed : Bool) (image m : List ℕ)
    → ram_base + length image < word
    → (rp2040_load_and_run answers executed image).execute ≡ some m
    → let u = rp2040_load_and_run answers executed image in
      (payload u.chunks ≡ image) × Placed ram_base u.chunks × Taken answers 0 u.chunks
unfolding rp2040_load_and_run
rp2040_load_and_run-whole answers executed image m small sent =
    let run = load_chunks answers (length image) 0 ram_base image in
    load_chunks-payload answers (length image) 0 ram_base image small
      (started run.1 (execute_message ram_base) m sent)

load_chunks-done :
    (answers : ℕ → ChunkAnswer) (n k addr : ℕ) (rest : List ℕ)
    → ((j : ℕ) → chunk_accepted (answers j) ≡ true)
    → length rest ≤ n
    → (load_chunks answers n k addr rest).1 ≡ true
unfolding load_chunks
load_chunks-done answers zero k addr rest good h = ground arith
load_chunks-done answers (suc n) k addr rest good h =
    let left = drop chunk_size rest in
    let next = u32 (addr + length (take chunk_size rest)) in
    elim (Bool-cases (length rest == 0)) [
      | inl empty ↦ rw empty refl
      | inr more ↦
          let fewer : length left ≤ n = ground (arith, length-drop chunk_size rest) in
          rw (more, good k) (load_chunks-done answers n (k + 1) next left good fewer)
    ]

-- The upload comes to its end: when the boot loader takes each chunk, the start message goes out, and
-- the call succeeds exactly when that message is taken.
pub rp2040_load_and_run-ends :
    (answers : ℕ → ChunkAnswer) (executed : Bool) (image : List ℕ)
    → ((j : ℕ) → chunk_accepted (answers j) ≡ true)
    → let u = rp2040_load_and_run answers executed image in
      (u.execute ≡ some (execute_message ram_base)) × (u.ok ≡ executed)
unfolding rp2040_load_and_run
rp2040_load_and_run-ends answers executed image good =
    let done = load_chunks-done answers (length image) 0 ram_base image good (omega arith) in
    rw done (refl, refl)
