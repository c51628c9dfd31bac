-- ===== src/FileTransfer/WebSocket/Framing.antt =====
-- websocket_handler.go: how a binary message is taken apart, against how one is put together.
use onli_desk_full.Common.{
  ◌≡◌, ℕ, ◌+◌, ◌*◌, ◌/◌, ◌%◌, ◌<◌, ◌++◌, ◌∷◌, [], length, length-append, take-length-append,
  drop-length-append, arith,
}
use onli_desk_full.FileTransfer.Chunks.{Bytes}
use onli_desk_full.FileTransfer.WebSocket.Chunks.{framed, read_frame}

-- A number in four bytes, the highest first.
abbrev pub big_endian : ℕ → Bytes
big_endian n = n / 16_777_216 % 256 ∷ n / 65_536 % 256 ∷ n / 256 % 256 ∷ n % 256 ∷ []

abbrev pub frame_of : Bytes → Bytes → Bytes
frame_of header content = big_endian (length header) ++ header ++ content

sum_of_bytes :
    (n : ℕ)
    → n < 4_294_967_296
    → n / 16_777_216 % 256 * 16_777_216 + n / 65_536 % 256 * 65_536 + n / 256 % 256 * 256 + n % 256
      ≡ n
sum_of_bytes n h = omega (arith, h)

read_counted :
    (a b c d : ℕ) (header content : Bytes)
    → a * 16_777_216 + b * 65_536 + c * 256 + d ≡ length header
    → read_frame (a ∷ b ∷ c ∷ d ∷ header ++ content) ≡ framed header content
unfolding read_frame
read_counted a b c d header content e = ground (
  arith,
  e,
  length-append header content,
  take-length-append header content,
  drop-length-append header content,
)

-- A binary message that is put together from the length of the header in four bytes, the header and
-- the content is taken apart into this header and this content, if the length is below 2^32.
pub read_frame-frame_of :
    (header content : Bytes)
    → length header < 4_294_967_296
    → read_frame (frame_of header content) ≡ framed header content
read_frame-frame_of header content h =
    read_counted _ _ _ _ header content (sum_of_bytes (length header) h)
