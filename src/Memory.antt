-- ===== src/Memory.antt =====
-- Reads of a buffer through a pointer with a length beside it.
use ota_ws_update.Base.{ℕ, ltb, if◌then◌else◌, Option, none, some, Bytes, length, take}
use ota_ws_update.Esp.{null_dereference, out_of_bounds_read, M, pure, fault}

module _ {S : Type 0} where
  -- The `n` bytes at a pointer, `none` for NULL: a callee that checks for NULL gets it.
  unfoldable pub span : Option Bytes → ℕ → M S (Option Bytes)
  span none n = pure none
  span (some buf) n =
      if ltb (length buf) n then fault out_of_bounds_read else pure (some (take n buf))

  -- `memcpy` from the first `n` bytes at a pointer; the copy itself is only printed.
  unfoldable pub copy_from : Option Bytes → ℕ → M S (Unit {0})
  copy_from none n = fault null_dereference
  copy_from (some buf) n = if ltb (length buf) n then fault out_of_bounds_read else pure tt
