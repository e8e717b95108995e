-- ===== src/Wal/Recover/Rounds.antt =====
-- core/src/wal/recover_scan.rs: what a round of the scan says of any bytes.
use litesdb.Base.{
  ℕ, zero, suc, ◌+◌, ◌-◌, ◌≤◌, ◌<◌, ◌==◌, ◌||◌, not, ltb, ◌≡◌, refl, subst, arith, true, false,
  Bool, Bool-cases, inl, inr, List, [], ◌∷◌, length, take, drop, some, String,
}
use litesdb.Base.{
  Result, ok, err, >>=-eq-ok, ok-injective, ok_or, ok_or-eq_ok, fail_if, fail_if-eq_ok,
}
use litesdb.Base.Int.{checked_add}
use litesdb.Limits.{max_wal_record_payload}
use litesdb.Wal.Record.Encode.{record_header_bytes}
use litesdb.Wal.Record.Decode.{
  framed_len, validate_payload_len, inspect, decode_inspected, in_record,
}
use litesdb.Base.Cursor.{read_at}
use litesdb.Wal.Tail.State.{TailIndex, field_type}
use litesdb.Wal.Tail.Apply.{apply}
use litesdb.Wal.Tail.Invariant.{IsTail}
use litesdb.Wal.Tail.Step.{apply-IsTail}
use litesdb.Wal.Recover.{
  Scanned, stopped, advanced, stop_scan, scan_record, scan_framed, scan_frame, replay_frame,
  repair_or_corrupt, in_recovery,
}

length-drop : (n : ℕ) (xs : List ℕ) → length (drop n xs) ≡ length xs - n
length-drop zero xs = omega arith
length-drop (suc n) [] = omega arith
length-drop (suc n) (x ∷ xs) = omega (arith, length-drop n xs)

framed_len_inv : (prefix : List ℕ) {n : ℕ} → framed_len prefix ≡ ok n → record_header_bytes < n
unfolding framed_len validate_payload_len
framed_len_inv prefix h =
    let (payload_len, _, h₁) =
      >>=-eq-ok (read_at (in_record "truncated payload length") 4 0 prefix) _ h in
    let (_, valid, h₂) =
      >>=-eq-ok (fail_if ((payload_len == 0) || ltb max_wal_record_payload payload_len) _) _ h₁ in
    let positive =
      fail_if-eq_ok ((payload_len == 0) || ltb max_wal_record_payload payload_len) _ valid in
    let same = ok-injective h₂ in ground (arith, positive)

add_inv : (a b : ℕ) {c : ℕ} → checked_add 64 a b ≡ some c → c ≡ a + b
unfolding checked_add
add_inv a b h = ground arith

-- What holds of the state of the scan: the bytes that are left end the file, and the index is well
-- formed and waits for the expected record.
pub record IsScanning (file_len position seq : ℕ) (target : TailIndex) (rest : List ℕ)
    : Type 0 where
  pub whole : file_len ≡ position + length rest
  pub target_is : IsTail target
  pub seq_is : target.next_seq ≡ seq

-- A round that stops cuts off what is left, in the last segment only; a round that goes on keeps the
-- state of the scan and has fewer bytes left.
abbrev pub Sound : Bool → ℕ → ℕ → List ℕ → Scanned → Type 0
Sound is_last file_len position rest (stopped (end, removed)) =
    (end ≡ position) × (removed ≡ length rest) × (is_last ≡ true)
Sound is_last file_len position rest (advanced frame_end seq target later) =
    IsScanning file_len frame_end seq target later × (length later < length rest)

repair_inv :
    (file_len position : ℕ) (is_last : Bool) (reason : String) (rest : List ℕ) (scanned : Scanned)
    → file_len ≡ position + length rest
    → stop_scan (repair_or_corrupt file_len position is_last reason) ≡ ok scanned
    → Sound is_last file_len position rest scanned
unfolding repair_or_corrupt
repair_inv file_len position true reason rest scanned whole h =
    subst (λ s. Sound true file_len position rest s) (ok-injective h) (refl, omega arith, refl)
repair_inv file_len position false reason rest scanned whole h = cc

module _ (row_size entry_size : ℕ) (sized : 1 ≤ row_size) (crc : List ℕ → ℕ) where
  replay_frame_inv :
      (is_last : Bool) (file_len position frame_end seq actual_seq : ℕ) (target : TailIndex)
      (frame rest later : List ℕ) (scanned : Scanned)
      → IsTail target
      → target.next_seq ≡ seq
      → file_len ≡ frame_end + length later
      → length later < length rest
      → replay_frame row_size entry_size crc frame_end seq target frame actual_seq later
        ≡ ok scanned
      → Sound is_last file_len position rest scanned
  unfolding replay_frame
  replay_frame_inv is_last file_len position frame_end seq actual_seq target frame rest later
        scanned is next whole less h =
      let (_, _, h₁) =
        >>=-eq-ok (fail_if (not (actual_seq == seq)) (in_recovery "record sequence gap")) _ h in
      let (decoded, _, h₂) =
        >>=-eq-ok (decode_inspected (field_type target) frame actual_seq) _ h₁ in
      let (target', applied, h₃) =
        >>=-eq-ok (apply row_size entry_size target decoded.seq decoded.body) _ h₂ in
      let (following_seq, e, h₄) =
        >>=-eq-ok (ok_or (checked_add 64 seq 1) (in_recovery "sequence overflow")) _ h₃ in
      let (_, is', _, next') =
        apply-IsTail row_size entry_size target decoded.seq decoded.body target' sized is applied in
      let following_is = add_inv seq 1 (ok_or-eq_ok _ _ e) in
      subst (λ s. Sound is_last file_len position rest s) (ok-injective h₄)
        (record { whole = whole; target_is = is'; seq_is = omega arith }, less)

  scan_frame_inv :
      (is_last : Bool) (file_len position frame_end seq : ℕ) (target : TailIndex)
      (frame rest later : List ℕ) (inspected : Result ℕ) (scanned : Scanned)
      → IsScanning file_len position seq target rest
      → file_len ≡ frame_end + length later
      → length later < length rest
      → scan_frame row_size entry_size crc is_last file_len position frame_end seq target frame
          later inspected
        ≡ ok scanned
      → Sound is_last file_len position rest scanned
  unfolding scan_frame
  scan_frame_inv is_last file_len position frame_end seq target frame rest later (ok actual_seq)
        scanned is whole less h =
      replay_frame_inv is_last file_len position frame_end seq actual_seq target frame rest later
        scanned is.target_is is.seq_is whole less h
  scan_frame_inv false file_len position frame_end seq target frame rest later (err e) scanned is
        whole less h =
      cc
  scan_frame_inv true file_len position frame_end seq target frame rest later (err e) scanned is
        whole less h =
      elim (Bool-cases (frame_end == file_len)) [
        | inl ends ↦ repair_inv file_len position true _ rest scanned is.whole (rw ends at h)
        | inr before ↦ let refused = rw before at h in cc
      ]

  scan_framed_inv :
      (is_last : Bool) (file_len position seq : ℕ) (target : TailIndex) (rest : List ℕ)
      (framed : Result ℕ) (scanned : Scanned)
      → IsScanning file_len position seq target rest
      → framed_len (take record_header_bytes rest) ≡ framed
      → scan_framed row_size entry_size crc is_last file_len position seq target rest framed
        ≡ ok scanned
      → Sound is_last file_len position rest scanned
  unfolding scan_framed
  scan_framed_inv is_last file_len position seq target rest (err e) scanned is named h =
      repair_inv file_len position is_last _ rest scanned is.whole h
  scan_framed_inv is_last file_len position seq target rest (ok n) scanned is named h =
      let (frame_end, e, h₁) =
        >>=-eq-ok (ok_or (checked_add 64 position n) (in_recovery "frame end overflow")) _ h in
      let end_is = add_inv position n (ok_or-eq_ok _ _ e) in
      let long = framed_len_inv (take record_header_bytes rest) named in
      let left = length-drop n rest in
      elim (Bool-cases (ltb file_len frame_end)) [
        | inl short ↦ repair_inv file_len position is_last _ rest scanned is.whole (rw short at h₁)
        | inr fits ↦
            let within : frame_end ≤ file_len = ground arith in
            let whole : file_len ≡ position + length rest = is.whole in
            scan_frame_inv is_last file_len position frame_end seq target (take n rest) rest
              (drop n rest) (inspect crc (take n rest)) scanned is (omega arith) (omega arith)
              (rw fits at h₁)
      ]

  pub scan_record_inv :
      (is_last : Bool) (file_len position seq : ℕ) (target : TailIndex) (rest : List ℕ)
      (scanned : Scanned)
      → IsScanning file_len position seq target rest
      → scan_record row_size entry_size crc is_last file_len position seq target rest ≡ ok scanned
      → Sound is_last file_len position rest scanned
  unfolding scan_record
  scan_record_inv is_last file_len position seq target rest scanned is h =
      elim (Bool-cases (ltb (file_len - position) record_header_bytes)) [
        | inl short ↦ repair_inv file_len position is_last _ rest scanned is.whole (rw short at h)
        | inr long ↦
            scan_framed_inv is_last file_len position seq target rest
              (framed_len (take record_header_bytes rest)) scanned is refl (rw long at h)
      ]
