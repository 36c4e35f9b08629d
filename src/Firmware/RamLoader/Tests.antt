-- ===== src/Firmware/RamLoader/Tests.antt =====
-- The upload at a concrete image.
use flexi_ninja.Prelude.{ℕ, refl, true, some, List, [], arith, ◌≡◌, ◌∷◌}
use flexi_ninja.Firmware.RamLoader.{
  ChunkAnswer, chunk_accepted, load_chunks, execute_message, ram_base, rp2040_load_and_run,
}
use flexi_ninja.Firmware.RamLoader.Image.{
  payload, Placed, Taken, rp2040_load_and_run-whole, rp2040_load_and_run-ends,
}

abbrev willing : ℕ → ChunkAnswer
willing k = record { written = true; read = true; ready = 1 }

willing_accepted : (j : ℕ) → chunk_accepted (willing j) ≡ true
unfolding chunk_accepted
willing_accepted j = refl

abbrev small_image : List ℕ
small_image = 10 ∷ 20 ∷ 30 ∷ []

rp2040_load_and_run-ends_example :
    let u = rp2040_load_and_run willing true small_image in
    (u.execute ≡ some (execute_message ram_base)) × (u.ok ≡ true)
rp2040_load_and_run-ends_example =
    rp2040_load_and_run-ends willing true small_image willing_accepted

small_image_sent :
    (rp2040_load_and_run willing true small_image).execute ≡ some (execute_message ram_base)
unfolding rp2040_load_and_run load_chunks chunk_accepted
small_image_sent = refl

rp2040_load_and_run-whole_example :
    let u = rp2040_load_and_run willing true small_image in
    (payload u.chunks ≡ small_image) × Placed ram_base u.chunks × Taken willing 0 u.chunks
rp2040_load_and_run-whole_example =
    rp2040_load_and_run-whole willing true small_image (execute_message ram_base) (omega arith)
      small_image_sent
