-- ===== src/Span.antt =====
-- crates/izel_span/src/lib.rs: positions and spans of source text.
use izel.Prelude.{ℕ}

-- `SourceId(u32)` and `BytePos(u32)`.
abbrev pub SourceId : Type 0
SourceId = ℕ

abbrev pub BytePos : Type 0
BytePos = ℕ

pub record Span : Type 0 where
  pub lo : BytePos
  pub hi : BytePos
  pub source_id : SourceId

-- `Span::dummy`
abbrev pub dummy : Span
dummy = record { lo = 0; hi = 0; source_id = 0 }
