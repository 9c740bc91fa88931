-- ===== src/Server/Writer.antt =====
-- What `loggingResponseWriter` of pkg/server/server.go has counted after any calls of a handler.
use runkube.Common.{
  ℕ, ◌+◌, ◌≡◌, refl, ◌≢◌, Bool, true, false, ◌∙◌, List, [], ◌∷◌, All, arith, eqb_iff, inl, inr,
  Bool-cases,
}
use runkube.Server.{
  LoggingResponseWriter, new_logging_response_writer, written, write_header, start_ok, write, flush,
}

-- A call of the handler on its writer.
pub data Op : Type 0 where
  header body : ℕ → Op
  flush_out : Op

unfoldable pub apply : Op → LoggingResponseWriter → LoggingResponseWriter
unfolding write_header write flush
apply (header status) l = write_header status l
apply (body n) l = write n l
apply flush_out l = flush l

unfoldable pub apply_all : List Op → LoggingResponseWriter → LoggingResponseWriter
unfolding apply
apply_all [] l = l
apply_all (op ∷ ops) l = apply_all ops (apply op l)

-- The statuses of `WriteHeader` are not 0, with which net/http panics.
abbrev pub IsValid : Op → Type 0
IsValid (header status) = status ≢ 0
IsValid _ = Unit

-- The status that the first call decides, if there is a call that does: 200 for a body or a flush.
abbrev pub first_status : Bool → List Op → List ℕ
first_status can_flush [] = []
first_status can_flush (header status ∷ ops) = status ∷ []
first_status can_flush (body n ∷ ops) = 200 ∷ []
first_status true (flush_out ∷ ops) = 200 ∷ []
first_status false (flush_out ∷ ops) = first_status false ops

abbrev pub total : List Op → ℕ
total [] = 0
total (body n ∷ ops) = n + total ops
total (_ ∷ ops) = total ops

abbrev pub code_of : List ℕ → ℕ
code_of [] = 0
code_of (status ∷ rest) = status

total-cons : (op : Op) (ops : List Op) → total (op ∷ ops) ≡ total (op ∷ []) + total ops
total-cons (header status) ops = omega arith
total-cons (body n) ops = omega arith
total-cons flush_out ops = omega arith

-- The first call that decides a status.
apply-fresh :
    (op : Op) (l : LoggingResponseWriter)
    → l.status_code ≡ 0
    → let l' = apply op l in
      let first = first_status l.can_flush (op ∷ []) in
      (l'.status_code ≡ code_of first)
      × (l.sent ≡ [] → l'.sent ≡ first)
      × (l'.can_flush ≡ l.can_flush)
      × (l'.size ≡ l.size + total (op ∷ []))
unfolding apply write_header write flush start_ok written
apply-fresh (header status) l z = (ground arith, (λ e. ground arith), ground arith, ground arith)
apply-fresh (body n) l z = (ground arith, (λ e. ground arith), ground arith, ground arith)
apply-fresh flush_out l z = elim (Bool-cases l.can_flush) [
  | inl can ↦ (ground arith, (λ e. ground arith), ground arith, ground arith)
  | inr cannot ↦ (ground arith, (λ e. ground arith), ground arith, ground arith)
]

-- Once a status is sent, nothing but the size and the flushes changes.
apply-written :
    (op : Op) (l : LoggingResponseWriter)
    → l.status_code ≢ 0
    → ((apply op l).status_code ≡ l.status_code)
      × ((apply op l).sent ≡ l.sent)
      × ((apply op l).can_flush ≡ l.can_flush)
      × ((apply op l).size ≡ l.size + total (op ∷ []))
unfolding apply write_header write flush start_ok written
apply-written (header status) l h = ground (arith, eqb_iff l.status_code 0)
apply-written (body n) l h = ground (arith, eqb_iff l.status_code 0)
apply-written flush_out l h = ground (arith, eqb_iff l.status_code 0)

apply_all-written :
    (ops : List Op) (l : LoggingResponseWriter)
    → l.status_code ≢ 0
    → ((apply_all ops l).status_code ≡ l.status_code)
      × ((apply_all ops l).sent ≡ l.sent)
      × ((apply_all ops l).size ≡ l.size + total ops)
unfolding apply_all
apply_all-written [] l h = (refl, refl, omega arith)
apply_all-written (op ∷ ops) l h =
    let (a, b, c, d) = apply-written op l h in
    let (a', b', d') = apply_all-written ops (apply op l) (λ z. ground (arith)) in
    (
      a' ∙ a,
      b' ∙ b,
      (let e : total (op ∷ ops) ≡ total (op ∷ []) + total ops = total-cons op ops in
          omega (arith, e, d, d')),
    )

decided :
    (op : Op) (ops : List Op) (l : LoggingResponseWriter) (code : ℕ)
    → l.status_code ≡ 0
    → first_status l.can_flush (op ∷ []) ≡ code ∷ []
    → code ≢ 0
    → ((apply_all (op ∷ ops) l).status_code ≡ code)
      × (l.sent ≡ [] → (apply_all (op ∷ ops) l).sent ≡ code ∷ [])
      × ((apply_all (op ∷ ops) l).size ≡ l.size + total (op ∷ ops))
unfolding apply_all
decided op ops l code z first ne =
    let (a, b, c, d) = apply-fresh op l z in
    let set : (apply op l).status_code ≢ 0 = λ h. ground arith in
    let (a', b', d') = apply_all-written ops (apply op l) set in
    (a' ∙ (a ∙ rw first refl), (λ e. b' ∙ (b e ∙ first)), omega (arith, total-cons op ops, d, d'))

apply_all-fresh :
    (ops : List Op) (l : LoggingResponseWriter)
    → All IsValid ops
    → l.status_code ≡ 0
    → ((apply_all ops l).status_code ≡ code_of (first_status l.can_flush ops))
      × (l.sent ≡ [] → (apply_all ops l).sent ≡ first_status l.can_flush ops)
      × ((apply_all ops l).size ≡ l.size + total ops)
unfolding apply_all apply flush
apply_all-fresh [] l v z = (z, (λ e. e), omega arith)
apply_all-fresh (header status ∷ ops) l v z = decided (header status) ops l status z refl v.0
apply_all-fresh (body n ∷ ops) l v z = decided (body n) ops l 200 z refl (omega arith)
apply_all-fresh (flush_out ∷ ops) l v z = elim (Bool-cases l.can_flush) [
  | inl can ↦
      (let (a, b, c) = decided flush_out ops l 200 z (ground arith) (omega arith) in ground arith)
  | inr cannot ↦ ground (arith, apply_all-fresh ops l v.1 z)
]

-- After any calls of a handler on a new writer, of which none sends the status 0: the status that is
-- logged is the one that the first call decides, be it by `WriteHeader` or, with 200, by a body or a
-- flush; it was sent once, or not at all if no call decides one; and the size is that of all bodies.
pub apply_all_lem :
    (ops : List Op) (can_flush : Bool)
    → All IsValid ops
    → let l = apply_all ops (new_logging_response_writer can_flush) in
      (l.status_code ≡ code_of (first_status can_flush ops))
      × (l.sent ≡ first_status can_flush ops)
      × (l.size ≡ total ops)
unfolding new_logging_response_writer
apply_all_lem ops can_flush v =
    let (a, b, c) = apply_all-fresh ops (new_logging_response_writer can_flush) v refl in
    (a, b refl, omega (arith, c))
