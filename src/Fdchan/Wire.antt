-- ===== src/Fdchan/Wire.antt =====
-- pkg/sandbox/fdchan/fdchan.go: frames on the socket, a length of four bytes and then a payload.
-- `encoding/json`, the control messages and the socket are other people's code: a parameter.
use runkube.Common.{
  ℕ, zero, suc, ◌+◌, ◌*◌, ◌/◌, ◌%◌, ◌^◌, ◌≤◌, ◌<◌, ◌≡◌, refl, String, Bool, true, false, not,
  Option, none, some, List, [], ◌∷◌, ◌++◌, length, take, drop, ltb, eqb, if◌then◌else◌,
}
use runkube.Fdchan.{
  Annotation, Payload, Message, Outcome, ok, err, ◌>>=◌, checked, mismatched_count, marshal_failed,
  write_failed, read_failed, incomplete_header, bad_control, unmarshal_failed,
}
pub mod Laws

-- What the package calls. The state `Socket` is the connection with the bytes under way. A control
-- message has its own bytes; a read with no room for one, `read`, drops it.
pub record Platform : Type 1 where
  pub Socket : Type 0
  pub marshal : Payload → Option (List ℕ)
  pub unmarshal : List ℕ → Option Payload
  pub unix_rights : List ℕ → List ℕ
  pub parse_control : List ℕ → Option (List (List ℕ))
  pub parse_rights : List ℕ → Option (List ℕ)
  pub write_msg : List ℕ → List ℕ → Socket → Option Socket
  pub read_msg : ℕ → ℕ → Socket → Option (List ℕ × List ℕ × Socket)
  pub read : ℕ → Socket → Option (List ℕ × Socket)
  pub cmsg_space : ℕ → ℕ

-- `binary.BigEndian.PutUint32` of a uint32.
unfoldable pub put_uint32 : ℕ → List ℕ
put_uint32 v = v / 2 ^ 24 % 256 ∷ v / 2 ^ 16 % 256 ∷ v / 2 ^ 8 % 256 ∷ v % 256 ∷ []

-- `binary.BigEndian.Uint32`
unfoldable pub uint32 : List ℕ → ℕ
uint32 (a ∷ b ∷ c ∷ d ∷ rest) = a * 2 ^ 24 + b * 2 ^ 16 + c * 2 ^ 8 + d
uint32 _ = 0

-- A buffer of `n` bytes into which `got` was read: the rest stays zero.
unfoldable pub filled : ℕ → List ℕ → List ℕ
filled zero got = []
filled (suc n) [] = 0 ∷ filled n []
filled (suc n) (b ∷ got) = b ∷ filled n got

module _ (os : Platform) where
  unfoldable pub write_wire : Payload → List ℕ → os.Socket → Outcome os.Socket
  unfolding put_uint32
  write_wire p fds conn =
      if not (eqb (length fds) (length p.annotations))
      then err mismatched_count
      else (checked (os.marshal p) marshal_failed >>= λ meta_bytes.
          let buf : List ℕ = put_uint32 (length meta_bytes % 2 ^ 32) ++ meta_bytes in
          let oob : List ℕ = if ltb 0 (length fds) then os.unix_rights fds else [] in
          checked (os.write_msg buf oob conn) write_failed)

  -- The loop of `parseFDs`.
  unfoldable pub parse_each : List (List ℕ) → Outcome (List ℕ)
  parse_each [] = ok []
  parse_each (cmsg ∷ cmsgs) = checked (os.parse_rights cmsg) bad_control >>= λ here.
      parse_each cmsgs >>= λ later. ok (here ++ later)

  unfoldable pub parse_fds : List ℕ → Outcome (List ℕ)
  unfolding parse_each
  parse_fds [] = ok []
  parse_fds (b ∷ oob) = checked (os.parse_control (b ∷ oob)) bad_control >>= parse_each

  -- The payload, the files, and the connection after the reads. The count of the second read is not
  -- looked at, as in the source: what it did not fill stays zero.
  unfoldable pub read_wire : os.Socket → Outcome (Payload × List ℕ × os.Socket)
  unfolding parse_fds uint32 filled
  read_wire conn =
      checked (os.read_msg 4 (os.cmsg_space 40) conn) read_failed >>= λ (header, oob, conn').
      if ltb (length header) 4
      then err incomplete_header
      else (parse_fds oob >>= λ files.
          let meta_len : ℕ = uint32 header in
          checked (os.read meta_len conn') read_failed >>= λ (got, conn'').
          checked (os.unmarshal (filled meta_len got)) unmarshal_failed >>= λ p.
          ok (p, files, conn''))
