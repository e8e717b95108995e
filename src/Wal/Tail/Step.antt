-- ===== src/Wal/Tail/Step.antt =====
-- Validation decides whether a record is applied, and applying keeps the index well formed.
use litesdb.Base.{ℕ, ◌+◌, ◌≤◌, ◌<◌, ◌^◌, ◌==◌, not, ◌≡◌, refl, arith}
use litesdb.Base.{ok, >>=-eq-ok, ok_or, fail_if}
use litesdb.Base.{fail_if-eq_ok}
use litesdb.Base.Int.{checked_add}
use litesdb.Base.Map.{nat_ord}
use litesdb.Wal.Record.{RecordBody}
use litesdb.Wal.Tail.State.{TailIndex}
use litesdb.Wal.Tail.Validate.{validate, validate_body}
use litesdb.Wal.Tail.Validate.{replay}
use litesdb.Wal.Tail.Apply.{apply}
use litesdb.Wal.Tail.Invariant.{IsTail}
use litesdb.Wal.Tail.Bodies.{apply_body-validate_body}

IsTail-seq : (tail : TailIndex) (seq : ℕ) → IsTail tail → IsTail (record tail { next_seq = seq })
IsTail-seq tail seq is = record { sorted = is.sorted; each = is.each; bounded = is.bounded }

validate_inv :
    (row_size entry_size : ℕ) (tail : TailIndex) (seq : ℕ) (body : RecordBody)
    → validate row_size entry_size tail seq body ≡ ok tt
    → (seq ≡ tail.next_seq) × (validate_body row_size entry_size tail body ≡ ok tt)
unfolding validate
validate_inv row_size entry_size tail seq body h =
    let (_, number, h₁) = >>=-eq-ok (fail_if (not (seq == tail.next_seq)) _) _ h in
    let same = fail_if-eq_ok _ _ number in (ground arith, h₁)

following :
    (seq : ℕ)
    → seq + 1 < 2 ^ 64
    → ok_or (checked_add 64 seq 1) (replay "sequence overflow") ≡ ok (seq + 1)
unfolding checked_add
following seq h = ground arith

following_inv :
    (seq : ℕ) {n : ℕ}
    → ok_or (checked_add 64 seq 1) (replay "sequence overflow") ≡ ok n
    → seq + 1 < 2 ^ 64
unfolding checked_add
following_inv seq h = ground arith

apply_inv :
    (row_size entry_size : ℕ) (tail : TailIndex) (seq : ℕ) (body : RecordBody) (tail' : TailIndex)
    → apply row_size entry_size tail seq body ≡ ok tail'
    → (validate row_size entry_size tail seq body ≡ ok tt) × (seq + 1 < 2 ^ 64)
unfolding apply
apply_inv row_size entry_size tail seq body tail' h =
    let (_, valid, h₁) = >>=-eq-ok (validate row_size entry_size tail seq body) _ h in
    let (n, next, h₂) = >>=-eq-ok (ok_or (checked_add 64 seq 1) _) _ h₁ in
    (valid, following_inv seq next)

-- A record that validation accepts is applied: when the index is well formed, a row has a
-- positive size and the number of the record is not the last of `u64`, `apply` succeeds on every
-- record that `validate` accepts, the new index is well formed and it expects the next number.
pub apply-validate :
    (row_size entry_size : ℕ) (tail : TailIndex) (seq : ℕ) (body : RecordBody)
    → 1 ≤ row_size
    → IsTail tail
    → seq + 1 < 2 ^ 64
    → validate row_size entry_size tail seq body ≡ ok tt
    → (tail' : TailIndex) × (apply row_size entry_size tail seq body ≡ ok tail')
      × IsTail tail'
      × (tail'.next_seq ≡ tail.next_seq + 1)
unfolding apply
apply-validate row_size entry_size tail seq body size is room h =
    let (known, inner) = validate_inv row_size entry_size tail seq body h in
    let (tail', done, new) = apply_body-validate_body row_size entry_size tail body size is inner in
    (
      record tail' { next_seq = seq + 1 },
      rw (h, following seq room, done) refl,
      IsTail-seq tail' (seq + 1) new,
      omega arith,
    )

-- An applied record was accepted by validation, and the index that it leaves is well formed: when
-- the index is well formed, a row has a positive size and `apply` succeeds, the record carries
-- the number that the index expects, the new index expects the next one and is well formed.
pub apply-IsTail :
    (row_size entry_size : ℕ) (tail : TailIndex) (seq : ℕ) (body : RecordBody) (tail' : TailIndex)
    → 1 ≤ row_size
    → IsTail tail
    → apply row_size entry_size tail seq body ≡ ok tail'
    → (validate row_size entry_size tail seq body ≡ ok tt)
      × IsTail tail'
      × (seq ≡ tail.next_seq)
      × (tail'.next_seq ≡ tail.next_seq + 1)
apply-IsTail row_size entry_size tail seq body tail' size is h =
    let (valid, room) = apply_inv row_size entry_size tail seq body tail' h in
    let (known, inner) = validate_inv row_size entry_size tail seq body valid in
    let (other, done, new, next) =
      apply-validate row_size entry_size tail seq body size is room valid in
    let same : other ≡ tail' = cc in (valid, rw⁻¹ (same) new, known, rw⁻¹ (same) next)
