-- ===== src/Snapshot/Pages.antt =====
-- pkg/snapshot/generator/postgres/data/pg_snapshot_generator.go: the page ranges of a table. A page is a block
-- number of 32 bits, so that a start never wraps around, and the table is never empty in the sense of isEmpty.
pub mod Once
mod Tests
use pgstream.Prelude.{
  ℕ, zero, suc, ◌+◌, ◌/◌, ◌≡◌, Bool, ◌&&◌, ◌||◌, List, [], ◌∷◌, ltb, leb, ◌==◌, if◌then◌else◌,
}

-- page_count is the number of the last page, since they count from 0.
pub record TableInfo : Type 0 where
  pub page_count : ℕ
  pub avg_page_bytes : ℕ
  pub avg_row_bytes : ℕ
  pub batch_page_size : ℕ

pub record PageRange : Type 0 where
  pub start : ℕ
  pub end : ℕ

with_size : ℕ → TableInfo → TableInfo
with_size n t = record t { batch_page_size = n }

unfoldable pub pages_of_bytes : ℕ → TableInfo → ℕ
pages_of_bytes bytes t =
    let size = bytes / t.avg_page_bytes in
    let positive = if size == 0 then 1 else size in
    if ltb t.page_count positive then t.page_count else positive

unfoldable pub calculate_batch_page_size : ℕ → TableInfo → TableInfo
unfolding with_size
calculate_batch_page_size bytes t =
    if t.page_count == 0
    then with_size 1 t
    else if bytes == 0 || t.avg_page_bytes == 0
    then with_size t.page_count t
    else with_size (pages_of_bytes bytes t) t

-- The loop over the ranges from a start, on fuel.
unfoldable pub page_ranges : ℕ → ℕ → ℕ → ℕ → List PageRange
page_ranges zero size last start = []
page_ranges (suc fuel) size last start =
    let rest = page_ranges fuel size last (start + size) in
    if leb start last then (record { start = start; end = start + size }) ∷ rest else []

-- What snapshotTable sends to its workers.
unfoldable pub table_ranges : TableInfo → List PageRange
table_ranges t = page_ranges (suc t.page_count) t.batch_page_size t.page_count 0

-- A ctid: a page and the number of a row in it.
pub record Tid : Type 0 where
  pub page : ℕ
  pub item : ℕ

-- How the server compares ctids: by page, then by item.
pub record TidOrder : Type 0 where
  pub below : Tid → Tid → Bool
  pub below-pages :
      (a b : Tid) → below a b ≡ (ltb a.page b.page || ((a.page == b.page) && leb a.item b.item))

-- ctid BETWEEN '(start,0)' AND '(end,0)', as in pageRangeQuery.
unfoldable pub selects : TidOrder → PageRange → Tid → Bool
selects order r t =
    order.below (record { page = r.start; item = 0 }) t
    && order.below t (record { page = r.end; item = 0 })
