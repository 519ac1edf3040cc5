-- ===== src/Frame/Header.antt =====
-- The fixed part of a frame: numbers of four bytes and the type's code.
use kubus_node.Base.{ℕ, ◌+◌, ◌*◌, ◌/◌, ◌%◌, ◌^◌, ◌<◌, ◌≡◌, refl, some, arith}
use kubus_node.Frame.{
  FrameType, request_head, request_chunk, response_head, response_chunk, cancel, window_update,
  error, type_code, type_of_code,
}

pub u32_bytes :
    (n : ℕ)
    → n < 2 ^ 32
    → n / 0x1000000 % 256 * 0x1000000
        + n / 0x10000 % 256 * 0x10000
        + n / 0x100 % 256 * 0x100
        + n % 256
      ≡ n
u32_bytes n h = omega arith

pub type_of_code-type_code : (t : FrameType) → type_of_code (type_code t) ≡ some t
unfolding type_of_code
type_of_code-type_code request_head = refl
type_of_code-type_code request_chunk = refl
type_of_code-type_code response_head = refl
type_of_code-type_code response_chunk = refl
type_of_code-type_code cancel = refl
type_of_code-type_code window_update = refl
type_of_code-type_code error = refl

pub type_code-type_of_code : (n : ℕ) (t : FrameType) → type_of_code n ≡ some t → type_code t ≡ n
unfolding type_of_code
type_code-type_of_code n t h = ground arith
