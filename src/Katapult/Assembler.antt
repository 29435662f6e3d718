-- ===== src/Katapult/Assembler.antt =====
-- `ResponseAssembler` (src/flash/katapult/mod.rs): one reply put together from the chunks that a
-- transport receives. The assembler is its buffer; a push returns the new buffer with its result.
pub mod Sync
pub mod Chunking
use Prim.Native.Nat.{compare, Ordering}
use mathlib.Core.Option
use aldis.Prelude.{
  ℕ, zero, suc, ◌+◌, ◌-◌, ◌*◌, ◌==◌, ltb, if◌then◌else◌, ◌&&◌, Bool, true, false, Option, none,
  some, List, [], ◌∷◌, ◌++◌, Bytes, length, drop, get_or, Result, ok, err,
}
use aldis.Katapult.Frame.{min_frame_length, max_response_frame_bytes}

pub data AssemblyError : Type 0 where
  too_large : ℕ → AssemblyError
  -- expected, actual
  length_exceeded : ℕ → ℕ → AssemblyError

-- `w == HEADER` for a window of two bytes
abbrev pub is_header : ℕ → ℕ → Bool
is_header x y = x == 0x01 && y == 0x88

-- `windows(2).position(|w| w == HEADER)`
pub header_position : Bytes → Option ℕ
header_position [] = none
header_position (x ∷ []) = none
header_position (x ∷ y ∷ rest) =
    let later = Option.map suc (header_position (y ∷ rest)) in
    if is_header x y then some 0 else later

-- `buffer.last() == Some(&HEADER[0])`
pub ends_with_first : Bytes → Bool
ends_with_first [] = false
ends_with_first (x ∷ []) = x == 0x01
ends_with_first (x ∷ y ∷ rest) = ends_with_first (y ∷ rest)

unfoldable pub discard_until_header : Bytes → Bytes
unfolding header_position ends_with_first
discard_until_header buffer = elim (header_position buffer) [
  | some start ↦ drop start buffer
  | none ↦ drop (length buffer - (if ends_with_first buffer then 1 else 0)) buffer
]

-- what `push` does with the buffer once it begins with a header
pub check_length : Bytes → Result AssemblyError (Option Bytes) × Bytes
check_length buffer =
    let n = length buffer in
    let expected = min_frame_length + get_or buffer 3 0 * 4 in
    if ltb max_response_frame_bytes n
    then (err (too_large n), buffer)
    else if ltb n 4
    then (ok none, buffer)
    else elim (compare n expected) [
      | Ordering.lt ↦ (ok none, buffer)
      | Ordering.eq ↦ (ok (some buffer), [])
      | Ordering.gt ↦ (err (length_exceeded expected n), buffer)
    ]

unfoldable pub push : Bytes → Bytes → Result AssemblyError (Option Bytes) × Bytes
unfolding discard_until_header check_length
push buffer chunk = check_length (discard_until_header (buffer ++ chunk))

-- The loop of a transport over the chunks that it receives: it goes on while the frame is not
-- complete, and returns the frame or the error as soon as there is one.
unfoldable pub assemble : Bytes → List Bytes → Result AssemblyError (Option Bytes)
assemble buffer [] = ok none
assemble buffer (chunk ∷ chunks) =
    let (result, rest) = push buffer chunk in
    elim result [
      | ok none ↦ assemble rest chunks
      | ok (some frame) ↦ ok (some frame)
      | err e ↦ err e
    ]
