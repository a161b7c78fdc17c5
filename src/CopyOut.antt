-- ===== src/CopyOut.antt =====
-- CopyOut and CopyOutBytes of src/FacadeInternal.h: the protocol by which a getter hands a value
-- to a caller's buffer.
use target_facade.Base.{
  ℕ, ◌+◌, ◌%◌, ◌^◌, ◌<◌, ◌≡◌, refl, List, Option, none, some, arith, ltb, if◌then◌else◌,
}
use target_facade.Base.Lists.{length}
use target_facade.Base.Text.{WString}
use target_facade.Status.{HResult, s_ok, e_pointer, e_more_data}

-- What a getter leaves behind: its code, what the caller's buffer holds and the caller's size.
-- A buffer or a size of none is a NULL argument. A buffer of wide characters is given by the text
-- in it, a buffer of bytes by the bytes last written.
pub record Copied : Type 0 where
  pub status : HResult
  pub buf : Option (List ℕ)
  pub size : Option ℕ

abbrev fill : Option (List ℕ) → List ℕ → ℕ → ℕ → Copied
fill none value have need = record { status = s_ok; buf = none; size = some need }
fill (some old) value have need =
    if ltb have need
    then record { status = e_more_data; buf = some old; size = some need }
    else record { status = s_ok; buf = some value; size = some need }

-- The size counts the terminator, in characters.
unfoldable pub copy_out : WString → Option (List ℕ) → Option ℕ → Copied
copy_out value buf none = record { status = e_pointer; buf = buf; size = none }
copy_out value buf (some have) = fill buf value have ((length value + 1) % 2 ^ 32)

-- A value is a vector whose size is an unsigned int.
unfoldable pub copy_out_bytes : List ℕ → Option (List ℕ) → Option ℕ → Copied
copy_out_bytes value buf none = record { status = e_pointer; buf = buf; size = none }
copy_out_bytes value buf (some have) = fill buf value have (length value % 2 ^ 32)

-- A call without a buffer succeeds and yields the size with which a second call fills any buffer
-- with the whole value; every smaller size is refused with ERROR_MORE_DATA, leaves the buffer
-- alone and yields that size again.
query_then_copy :
    (value : WString) (old : List ℕ) (asked have : ℕ)
    → length value + 1 < 2 ^ 32
    → (need : ℕ) × (copy_out value none (some asked)
        ≡ record { status = s_ok; buf = none; size = some need })
      × (copy_out value (some old) (some need)
          ≡ record { status = s_ok; buf = some value; size = some need })
      × (have < need
          → copy_out value (some old) (some have)
            ≡ record { status = e_more_data; buf = some old; size = some need })
      × (need ≡ length value + 1)
unfolding copy_out
query_then_copy value old asked have small =
    ((length value + 1) % 2 ^ 32, refl, ground arith, λ h. ground arith, omega arith)
