-- ===== src/Csv.antt =====
-- Comma-separated text: the streaming reader packages/analytics/src/csv-parse.ts and the writer
-- apps/api/src/lib/csv.ts. A text is the list of its UTF-16 code units, which is what both index.
pub mod Reader
pub mod Header
pub mod Chunks
pub mod Writer
mod Examples
use build_affiliate.Common.{ℕ, List}

abbrev pub Text : Type 0
Text = List ℕ

abbrev pub quote : ℕ
quote = 34

abbrev pub delimiter : ℕ
delimiter = 44

abbrev pub bom : ℕ
bom = 65279

abbrev pub line_feed : ℕ
line_feed = 10

abbrev pub carriage_return : ℕ
carriage_return = 13
