-- ===== src/Snapshot/Pages/Once.antt =====
-- pkg/snapshot/generator/postgres/data/pg_snapshot_generator.go: every row is in one page range.
use pgstream.Prelude.{
  ℕ, zero, suc, ◌+◌, ◌≤◌, ◌<◌, ◌≡◌, refl, ap, ◌∙◌, inl, inr, true, false, List, [], ◌∷◌, length,
  keep, ltb, leb, arith, Bool-cases, ◌&&◌,
}
use pgstream.Snapshot.Pages.{
  TableInfo, PageRange, Tid, TidOrder, pages_of_bytes, calculate_batch_page_size, page_ranges,
  table_ranges, selects,
}

calculate-pages :
    (bytes : ℕ) (t : TableInfo) → (calculate_batch_page_size bytes t).page_count ≡ t.page_count
unfolding calculate_batch_page_size
calculate-pages bytes t = ground arith

calculate-positive :
    (bytes : ℕ) (t : TableInfo) → 1 ≤ (calculate_batch_page_size bytes t).batch_page_size
unfolding calculate_batch_page_size pages_of_bytes
calculate-positive bytes t = ground arith

-- A range holds the rows of its pages, without the last one.
selects-pages :
    (order : TidOrder) (s n : ℕ) (t : Tid)
    → 1 ≤ t.item
    → selects order (record { start = s; end = s + n }) t ≡ (leb s t.page && ltb t.page (s + n))
unfolding selects
selects-pages order s n t i =
    let from = order.below-pages (record { page = s; item = 0 }) t in
    let to = order.below-pages t (record { page = s + n; item = 0 }) in rw (from, to) (ground arith)

page_ranges-length : (fuel size last start : ℕ) → length (page_ranges fuel size last start) ≤ fuel
unfolding page_ranges
page_ranges-length zero size last start = omega arith
page_ranges-length (suc fuel) size last start =
    let rest = page_ranges-length fuel size last (start + size) in
    elim (Bool-cases (leb start last)) [
      | inl e ↦ rw e (omega (arith, rest))
      | inr e ↦ rw e (omega arith)
    ]

page_ranges-past : (fuel size last start : ℕ) → last < start → page_ranges fuel size last start ≡ []
unfolding page_ranges
page_ranges-past zero size last start h = refl
page_ranges-past (suc fuel) size last start h = ground arith

page_ranges-enough :
    (fuel more size last start : ℕ)
    → 1 ≤ size
    → last < fuel + start
    → page_ranges (fuel + more) size last start ≡ page_ranges fuel size last start
unfolding page_ranges
page_ranges-enough zero more size last start p h =
    page_ranges-past (0 + more) size last start (omega arith)
page_ranges-enough (suc fuel) more size last start p h =
    let rest = page_ranges-enough fuel more size last (start + size) p (omega arith) in
    let further : suc fuel + more ≡ suc (fuel + more) = omega arith in
    ap (λ n. page_ranges n size last start) further ∙ rw rest refl

-- How many of the ranges hold a row.
unfoldable pub selecting : TidOrder → Tid → List PageRange → ℕ
selecting order t rs = length (keep (λ r. selects order r t) rs)

selecting-out :
    (order : TidOrder) (t : Tid) (r : PageRange) (rs : List PageRange)
    → selects order r t ≡ false
    → selecting order t (r ∷ rs) ≡ selecting order t rs
unfolding selecting
selecting-out order t r rs e = rw e refl

selecting-in :
    (order : TidOrder) (t : Tid) (r : PageRange) (rs : List PageRange)
    → selects order r t ≡ true
    → selecting order t (r ∷ rs) ≡ suc (selecting order t rs)
unfolding selecting
selecting-in order t r rs e = rw e refl

selecting-before :
    (order : TidOrder) (t : Tid) (fuel size last start : ℕ)
    → 1 ≤ t.item
    → t.page < start
    → selecting order t (page_ranges fuel size last start) ≡ 0
unfolding page_ranges selecting
selecting-before order t zero size last start i h = refl
selecting-before order t (suc fuel) size last start i h =
    let rs = page_ranges fuel size last (start + size) in
    let miss : selects order (record { start = start; end = start + size }) t ≡ false =
      selects-pages order start size t i ∙ ground arith in
    elim (Bool-cases (leb start last)) [
      | inl e ↦ rw e (
          selecting-out order t _ rs miss
          ∙ selecting-before order t fuel size last (start + size) i (omega arith))
      | inr e ↦ rw e refl
    ]

selecting-once :
    (order : TidOrder) (t : Tid) (fuel size last start : ℕ)
    → 1 ≤ t.item
    → 1 ≤ size
    → start ≤ t.page
    → t.page ≤ last
    → last < fuel + start
    → selecting order t (page_ranges fuel size last start) ≡ 1
unfolding page_ranges
selecting-once order t zero size last start i p a b f = omega arith
selecting-once order t (suc fuel) size last start i p a b f =
    let rs = page_ranges fuel size last (start + size) in
    let started : leb start last ≡ true = ground arith in
    let held = selects-pages order start size t i in
    elim (Bool-cases (ltb t.page (start + size))) [
      | inl e ↦
          let hit : selects order (record { start = start; end = start + size }) t ≡ true =
            held ∙ ground arith in
          rw started (
            selecting-in order t _ rs hit
            ∙ ap suc (selecting-before order t fuel size last (start + size) i (ground arith)))
      | inr e ↦
          let miss : selects order (record { start = start; end = start + size }) t ≡ false =
            held ∙ ground arith in
          rw started (
            selecting-out order t _ rs miss
            ∙ selecting-once order t fuel size last (start + size) i p (ground arith) b
                (omega arith))
    ]

-- Whatever the limit of bytes and the average size of a page, every row of the table up to its last page is in
-- exactly one of the page ranges that are sent to the workers, where the server compares ctids by page and
-- numbers the rows of a page from one.
pub table_ranges-Once :
    (order : TidOrder) (bytes : ℕ) (info : TableInfo) (t : Tid)
    → 1 ≤ t.item
    → t.page ≤ info.page_count
    → selecting order t (table_ranges (calculate_batch_page_size bytes info)) ≡ 1
unfolding table_ranges
table_ranges-Once order bytes info t i h =
    let pages = calculate-pages bytes info in
    selecting-once order t _ _ _ 0 i (calculate-positive bytes info) (omega arith)
      (omega (arith, pages)) (omega arith)

-- The loop that sends the page ranges of a table to the channel ends: more fuel gives the same ranges, and
-- they are at most one more than the channel holds, so sending needs one receive at most.
pub page_ranges-Enough :
    (bytes more : ℕ) (info : TableInfo)
    → let t = calculate_batch_page_size bytes info in
      (page_ranges (suc t.page_count + more) t.batch_page_size t.page_count 0 ≡ table_ranges t)
      × (length (table_ranges t) ≤ suc info.page_count)
unfolding table_ranges
page_ranges-Enough bytes more info =
    let t = calculate_batch_page_size bytes info in
    (
      page_ranges-enough (suc t.page_count) more t.batch_page_size t.page_count 0
          (calculate-positive bytes info) (omega arith),
      omega (
        arith,
        calculate-pages bytes info,
        page_ranges-length (suc t.page_count) t.batch_page_size t.page_count 0,
      ),
    )
