-- ===== src/Fdchan/Wire/Laws.antt =====
-- `writeWire` against `readWire` of pkg/sandbox/fdchan/fdchan.go.
use runkube.Common.{
  ℕ, zero, suc, sym, ap, ◌∙◌, ◌≢◌, Option, take, drop, length-take, take_all, ◌%◌, ◌^◌, ◌≤◌, ◌<◌,
  ◌≡◌, refl, some, List, [], ◌∷◌, ◌++◌, length, ltb, if◌then◌else◌, arith, Option-cases, inl, inr,
  subst,
}
use mathlib.Core.Option.{some-injective}
use runkube.Fdchan.{Payload, ok, ◌>>=◌, checked, unmarshal_failed}
use runkube.Fdchan.Wire.{
  Platform, put_uint32, uint32, filled, write_wire, parse_each, parse_fds, read_wire,
}

-- What a socket holds: the bytes under way, and the control message that goes with them.
pub record Flow (os : Platform) : Type 0 where
  pub under_way : os.Socket → List ℕ
  pub control : os.Socket → List ℕ

-- What is documented of the platform. A send puts a front part of its bytes under way, and a read
-- takes a front part of those: either may be shorter than what was asked. A read of the first byte
-- gets the control message, if there is room. JSON decodes what it encoded; the rights of at most
-- ten files fit the buffer and are read back.
pub record IsStream (os : Platform) (flow : Flow os) : Type 0 where
  pub sends :
      (bytes oob : List ℕ) (s sent : os.Socket)
      → flow.under_way s ≡ []
      → os.write_msg bytes oob s ≡ some sent
      → (n : ℕ) × (flow.under_way sent ≡ take n bytes) × (flow.control sent ≡ oob)
  pub receives_msg :
      (k space : ℕ) (s after : os.Socket) (got oob : List ℕ)
      → os.read_msg k space s ≡ some (got, oob, after)
      → got ≢ []
      → length (flow.control s) ≤ space
      → (got ≡ take (length got) (flow.under_way s))
        × (oob ≡ flow.control s)
        × (flow.under_way after ≡ drop (length got) (flow.under_way s))
  pub receives :
      (k : ℕ) (s after : os.Socket) (got : List ℕ)
      → os.read k s ≡ some (got, after)
      → (got ≡ take (length got) (flow.under_way s))
        × (flow.under_way after ≡ drop (length got) (flow.under_way s))
  pub decodes : (p : Payload) (b : List ℕ) → os.marshal p ≡ some b → os.unmarshal b ≡ some p
  pub grants :
      (f : ℕ) (fds : List ℕ)
      → (byte : ℕ) × (rest : List ℕ) × (cmsg : List ℕ) × (os.unix_rights (f ∷ fds) ≡ byte ∷ rest)
        × (os.parse_control (byte ∷ rest) ≡ some (cmsg ∷ []))
        × (os.parse_rights cmsg ≡ some (f ∷ fds))
  pub room : (fds : List ℕ) → length fds ≤ 10 → length (os.unix_rights fds) ≤ os.cmsg_space 40

-- The length in a header is read as it was written, if it is a uint32.
pub put_uint32-uint32 : (v : ℕ) → v < 2 ^ 32 → uint32 (put_uint32 v) ≡ v
unfolding put_uint32 uint32
put_uint32-uint32 v h = omega arith

filled_all : (b : List ℕ) → filled (length b) b ≡ b
unfolding filled
filled_all [] = refl
filled_all (x ∷ b) = rw (filled_all b)

take-take : (l m : ℕ) (b : List ℕ) → l ≤ m → take l (take m b) ≡ take l b
take-take zero m b h = refl
take-take (suc l) zero b h = absurd (omega arith)
take-take (suc l) (suc m) [] h = refl
take-take (suc l) (suc m) (x ∷ b) h = rw (take-take l m b (omega arith))

drop_all : (l : ℕ) (b : List ℕ) → length b ≤ l → drop l b ≡ []
drop_all zero [] h = refl
drop_all zero (x ∷ b) h = absurd (omega arith)
drop_all (suc l) [] h = refl
drop_all (suc l) (x ∷ b) h = drop_all l b (omega arith)

-- A read that gives four of the bytes under way gives the first four of those sent.
first_four :
    (n w x y z : ℕ) (b header : List ℕ)
    → header ≡ take 4 (take n (w ∷ x ∷ y ∷ z ∷ b))
    → length header ≡ 4
    → (m : ℕ) × (header ≡ w ∷ x ∷ y ∷ z ∷ []) × (drop 4 (take n (w ∷ x ∷ y ∷ z ∷ b)) ≡ take m b)
first_four zero w x y z b header e four = absurd (ground arith)
first_four (suc zero) w x y z b header e four = absurd (ground arith)
first_four (suc (suc zero)) w x y z b header e four = absurd (ground arith)
first_four (suc (suc (suc zero))) w x y z b header e four = absurd (ground arith)
first_four (suc (suc (suc (suc m)))) w x y z b header e four = (m, e, refl)

-- A read of what is left of a sequence gives a front part of it.
front_part :
    (m : ℕ) (b got : List ℕ) → got ≡ take (length got) (take m b) → got ≡ take (length got) b
front_part m b got e =
    let sizes = ap length e ∙ length-take (length got) (take m b) in
    e ∙ take-take (length got) m b (omega (arith, sizes, length-take m b))

module _ (os : Platform) (flow : Flow os) (stream : IsStream os flow) where
  oob_of : List ℕ → List ℕ
  oob_of fds = if ltb 0 (length fds) then os.unix_rights fds else []

  append-nil : (xs : List ℕ) → xs ++ [] ≡ xs
  append-nil [] = refl
  append-nil (x ∷ xs) = rw (append-nil xs)

  parse_oob : (fds : List ℕ) → parse_fds os (oob_of fds) ≡ ok fds
  unfolding parse_fds parse_each oob_of
  parse_oob [] = refl
  parse_oob (f ∷ fds) =
      let (byte, rest, cmsg, e, e2, e3) = stream.grants f fds in
      ground (arith, append-nil (f ∷ fds))

  oob_room : (fds : List ℕ) → length fds ≤ 10 → length (oob_of fds) ≤ os.cmsg_space 40
  unfolding oob_of
  oob_room [] h = omega arith
  oob_room (f ∷ fds) h = ground (arith, stream.room (f ∷ fds) h)

  write_wire-parts :
      (p : Payload) (fds : List ℕ) (quiet sent : os.Socket)
      → write_wire os p fds quiet ≡ ok sent
      → (b : List ℕ) × (os.marshal p ≡ some b)
        × (os.write_msg (put_uint32 (length b % 2 ^ 32) ++ b) (oob_of fds) quiet ≡ some sent)
  unfolding write_wire oob_of
  write_wire-parts p fds quiet sent e = elim (Option-cases (os.marshal p)) [
    | inl n ↦ ground arith
    | inr (b, h) ↦
        elim (Option-cases
          (os.write_msg (put_uint32 (length b % 2 ^ 32) ++ b) (oob_of fds) quiet)) [
            | inl n ↦ ground arith
            | inr (s, h2) ↦ (b, h, ground arith)
          ]
  ]

  header_read :
      (b fds header oob : List ℕ) (quiet sent s1 : os.Socket)
      → flow.under_way quiet ≡ []
      → length fds ≤ 10
      → os.write_msg (put_uint32 (length b) ++ b) (oob_of fds) quiet ≡ some sent
      → os.read_msg 4 (os.cmsg_space 40) sent ≡ some (header, oob, s1)
      → length header ≡ 4
      → (m : ℕ) × (header ≡ put_uint32 (length b))
        × (oob ≡ oob_of fds)
        × (flow.under_way s1 ≡ take m b)
  unfolding put_uint32
  header_read b fds header oob quiet sent s1 empty few out first four =
      let (n, front, rights) =
        stream.sends (put_uint32 (length b) ++ b) (oob_of fds) quiet sent empty out in
      let fits : length (flow.control sent) ≤ os.cmsg_space 40 =
        subst (λ c. length c ≤ os.cmsg_space 40) (sym rights) (oob_room fds few) in
      let (got, controls, rest) =
        stream.receives_msg 4 (os.cmsg_space 40) sent s1 header oob first (λ e. ground arith)
          fits in
      let (m, is_header, left) =
        first_four n _ _ _ _ b header
          (got ∙ ap (λ k. take k (flow.under_way sent)) four ∙ ap (take 4) front) four in
      (
        m,
        is_header,
        controls ∙ rights,
        rest ∙ ap (λ k. drop k (flow.under_way sent)) four ∙ ap (drop 4) front ∙ left,
      )

  sent_bytes :
      (p : Payload) (fds b : List ℕ) (quiet sent : os.Socket)
      → os.marshal p ≡ some b
      → length b < 2 ^ 32
      → write_wire os p fds quiet ≡ ok sent
      → os.write_msg (put_uint32 (length b) ++ b) (oob_of fds) quiet ≡ some sent
  sent_bytes p fds b quiet sent coded fits e =
      let (b', coded', out) = write_wire-parts p fds quiet sent e in
      let same : b' ≡ b = some-injective _ _ (sym coded' ∙ coded) in
      let out' : os.write_msg (put_uint32 (length b % 2 ^ 32) ++ b) (oob_of fds) quiet ≡ some sent =
        subst
          (λ l. os.write_msg (put_uint32 (length l % 2 ^ 32) ++ l) (oob_of fds) quiet ≡ some sent)
          same out in
      let short : length b % 2 ^ 32 ≡ length b = omega arith in
      subst (λ n. os.write_msg (put_uint32 n ++ b) (oob_of fds) quiet ≡ some sent) short out'

  frame_read :
      (n : ℕ) (fds header oob got : List ℕ) (sent s1 s2 : os.Socket)
      → os.read_msg 4 (os.cmsg_space 40) sent ≡ some (header, oob, s1)
      → length header ≡ 4
      → uint32 header ≡ n
      → oob ≡ oob_of fds
      → os.read n s1 ≡ some (got, s2)
      → read_wire os sent
        ≡ (checked (os.unmarshal (filled n got)) unmarshal_failed >>= λ q. ok (q, fds, s2))
  unfolding read_wire
  frame_read n fds header oob got sent s1 s2 first four size rights second =
      let files : parse_fds os oob ≡ ok fds = ap (parse_fds os) rights ∙ parse_oob fds in
      rw (first, four, files, size, second) refl

  -- What `readWire` makes of what `writeWire` has sent of a payload of less than 2 ^ 32 bytes with at
  -- most ten files, on a connection with no byte under way, if its two reads give four bytes and then
  -- any number of bytes: those are a front part of the encoded payload, the files are the same in
  -- their order, and it decodes the bytes filled up with zeros. If the second read gives the whole
  -- payload, the result is the same payload, and no byte is left under way.
  pub write_wire-read_wire :
      (p : Payload) (fds b header oob got : List ℕ) (quiet sent s1 s2 : os.Socket)
      → flow.under_way quiet ≡ []
      → length fds ≤ 10
      → os.marshal p ≡ some b
      → length b < 2 ^ 32
      → write_wire os p fds quiet ≡ ok sent
      → os.read_msg 4 (os.cmsg_space 40) sent ≡ some (header, oob, s1)
      → length header ≡ 4
      → os.read (length b) s1 ≡ some (got, s2)
      → (got ≡ take (length got) b)
        × (read_wire os sent ≡ (
            checked (os.unmarshal (filled (length b) got)) unmarshal_failed >>= λ q.
            ok (q, fds, s2)))
        × (length got ≡ length b → (read_wire os sent ≡ ok (p, fds, s2)) × (flow.under_way s2 ≡ []))
  write_wire-read_wire p fds b header oob got quiet sent s1 s2 empty few coded fits e first four
        second =
      let out = sent_bytes p fds b quiet sent coded fits e in
      let (m, is_header, rights, left) =
        header_read b fds header oob quiet sent s1 empty few out first four in
      let (front, rest) = stream.receives (length b) s1 s2 got second in
      let part : got ≡ take (length got) b =
        front_part m b got (front ∙ ap (take (length got)) left) in
      let result =
        frame_read (length b) fds header oob got sent s1 s2 first four
          (ap uint32 is_header ∙ put_uint32-uint32 (length b) fits) rights second in
      (
        part,
        result,
        λ whole.
            let all : got ≡ b = part ∙ take_all (length got) b (omega arith) in
            let decoded : os.unmarshal (filled (length b) got) ≡ some p =
              ap (λ l. os.unmarshal (filled (length b) l)) all
              ∙ ap os.unmarshal (filled_all b)
              ∙ stream.decodes p b coded in
            (
              result
                  ∙ ap (λ (o : Option Payload). checked o unmarshal_failed >>= λ q. ok (q, fds, s2))
                      decoded,
              rest
                  ∙ ap (drop (length got)) left
                  ∙ drop_all (length got) (take m b) (omega (arith, length-take m b)),
            ),
      )
