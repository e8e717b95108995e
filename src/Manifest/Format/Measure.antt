-- ===== src/Manifest/Format/Measure.antt =====
-- core/src/manifest/format.rs: the measure of a manifest is the length of its body.
use litesdb.Base.{ℕ, ◌+◌, ◌≡◌, arith, List, [], ◌∷◌, length, length-append, is_some, if◌then◌else◌}
use litesdb.Base.{ok, >>=-eq-ok}
use litesdb.Base.Loops.{put_all}
use litesdb.Types.Schema.{TableVersion, duration}
use litesdb.Manifest.Catalog.{Manifest, TableCatalog}
use litesdb.Manifest.Format.Encode.{
  add_size, add_items, option_width, measure_versions, measure_tables, measure_body,
}
use litesdb.Manifest.Format.Version.{version_bytes}
use litesdb.Manifest.Format.Table.{table_bytes}
use litesdb.Manifest.Format.Lengths.{
  add_size_inv, add_items_inv, version_length, table_length, body_length, body_bytes,
}

measure_versions_inv :
    (vs : List TableVersion) (size : ℕ) {n : ℕ}
    → measure_versions size vs ≡ ok n
    → n ≡ size + length (put_all version_bytes vs)
unfolding measure_versions put_all
measure_versions_inv [] size h = ground arith
measure_versions_inv (v ∷ vs) size h =
    let (s₁, e₁, h₁) = >>=-eq-ok (add_size size 4) _ h in
    let (s₂, e₂, h₂) =
      >>=-eq-ok (add_size s₁ (if is_some (duration v.validity) then 5 else 1)) _ h₁ in
    let (s₃, e₃, h₃) = >>=-eq-ok (add_size s₂ (option_width (is_some v.effective_from))) _ h₂ in
    let (s₄, e₄, h₄) = >>=-eq-ok (add_size s₃ 4) _ h₃ in
    let (s₅, e₅, h₅) = >>=-eq-ok (add_items s₄ (length v.fields) 3) _ h₄ in
    omega (
      arith,
      add_size_inv _ _ e₁,
      add_size_inv _ _ e₂,
      add_size_inv _ _ e₃,
      add_size_inv _ _ e₄,
      add_items_inv _ _ _ e₅,
      measure_versions_inv vs s₅ h₅,
      version_length v,
      length-append (version_bytes v) (put_all version_bytes vs),
    )

measure_tables_inv :
    (ts : List TableCatalog) (size : ℕ) {n : ℕ}
    → measure_tables size ts ≡ ok n
    → n ≡ size + length (put_all table_bytes ts)
unfolding measure_tables put_all
measure_tables_inv [] size h = ground arith
measure_tables_inv (t ∷ ts) size h =
    let (s₁, e₁, h₁) = >>=-eq-ok (add_size size 4) _ h in
    let (s₂, e₂, h₂) = >>=-eq-ok (add_size s₁ (option_width (is_some t.last_ts))) _ h₁ in
    let (s₃, e₃, h₃) = >>=-eq-ok (add_size s₂ 4) _ h₂ in
    let (s₄, e₄, h₄) = >>=-eq-ok (measure_versions s₃ t.versions) _ h₃ in
    let (s₅, e₅, h₅) = >>=-eq-ok (add_size s₄ 4) _ h₄ in
    let (s₆, e₆, h₆) = >>=-eq-ok (add_items s₅ (length t.retired_series) 16) _ h₅ in
    let (s₇, e₇, h₇) = >>=-eq-ok (add_size s₆ 4) _ h₆ in
    let (s₈, e₈, h₈) = >>=-eq-ok (add_items s₇ (length t.retired_fields) 10) _ h₇ in
    omega (
      arith,
      add_size_inv size 4 {c = s₁} e₁,
      add_size_inv s₁ (option_width (is_some t.last_ts)) {c = s₂} e₂,
      add_size_inv s₂ 4 {c = s₃} e₃,
      measure_versions_inv t.versions s₃ {n = s₄} e₄,
      add_size_inv s₄ 4 {c = s₅} e₅,
      add_items_inv s₅ (length t.retired_series) 16 {n = s₆} e₆,
      add_size_inv s₆ 4 {c = s₇} e₇,
      add_items_inv s₇ (length t.retired_fields) 10 {n = s₈} e₈,
      measure_tables_inv ts s₈ h₈,
      table_length t,
      length-append (table_bytes t) (put_all table_bytes ts),
    )

pub measure_body_inv : (m : Manifest) {n : ℕ} → measure_body m ≡ ok n → n ≡ length (body_bytes m)
unfolding measure_body
measure_body_inv m h =
    let (s₁, e₁, h₁) = >>=-eq-ok (add_size 0 (24 + 36)) _ h in
    let (s₂, e₂, h₂) = >>=-eq-ok (add_size s₁ (option_width (is_some m.retention.floor))) _ h₁ in
    let (s₃, e₃, h₃) =
      >>=-eq-ok (add_size s₂ (option_width (is_some m.retention.heads_generation))) _ h₂ in
    let (s₄, e₄, h₄) = >>=-eq-ok (add_size s₃ 4) _ h₃ in
    let (s₅, e₅, h₅) = >>=-eq-ok (measure_tables s₄ m.tables) _ h₄ in
    let (s₆, e₆, h₆) = >>=-eq-ok (add_size s₅ 4) _ h₅ in
    omega (
      arith,
      add_size_inv _ _ e₁,
      add_size_inv _ _ e₂,
      add_size_inv _ _ e₃,
      add_size_inv _ _ e₄,
      measure_tables_inv m.tables s₄ e₅,
      add_size_inv _ _ e₆,
      add_items_inv _ _ _ h₆,
      body_length m,
    )
