-- ===== src/Client/Bounds.antt =====
-- The sizes of the parts that the page sends.
use ota_ws_update.Base.{
  ℕ, ◌+◌, ◌%◌, ◌≤◌, ◌<◌, ◌≡◌, Bytes, arith, length, length-take, take_all, drop, ap, ◌⊎◌, inl, inr,
  leb, Bool-cases,
}
use ota_ws_update.Http.Handler.{ota_chunk_size}
use ota_ws_update.Client.{Json, number, chunk_asked}
use ota_ws_update.Client.Pieces.{length-drop}

-- The chunk size is the largest multiple of 16 that is not larger than the configured one.
ota_chunk_size-bounds :
    (config : ℕ)
    → (ota_chunk_size config % 16 ≡ 0)
      × (ota_chunk_size config ≤ config)
      × (config < ota_chunk_size config + 16)
unfolding ota_chunk_size
ota_chunk_size-bounds config = (omega arith, omega arith, omega arith)

-- The configured chunk size is at least 16. A part that the page is asked for at an offset inside the
-- file is not empty and not larger than the configured size; and it has the whole chunk size, a multiple
-- of 16, or the file ends with it.
pub chunk_asked-bounds :
    (json : Json) (config start : ℕ) (file : Bytes)
    → 16 ≤ config
    → start < length file
    → let n = ota_chunk_size config in
      let part = chunk_asked json file (number start) (number n) in
      (0 < length part)
      × (length part ≤ config)
      × (((length part ≡ n) × (length part % 16 ≡ 0)) ⊎ (start + length part ≡ length file))
unfolding chunk_asked
chunk_asked-bounds json config start file some_chunk inside =
    let (whole, small, large) = ota_chunk_size-bounds config in
    let left = length-drop start file in
    elim (Bool-cases (leb (ota_chunk_size config) (length (drop start file)))) [
      | inl enough ↦
          let full = length-take (ota_chunk_size config) (drop start file) (ground arith) in
          (omega arith, omega arith, inl (full, rw full whole))
      | inr last ↦
          let rest =
            ap length (take_all (ota_chunk_size config) (drop start file) (ground arith)) in
          (omega arith, ground arith, inr (omega arith))
    ]
