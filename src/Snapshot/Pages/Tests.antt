-- ===== src/Snapshot/Pages/Tests.antt =====
-- pkg/snapshot/generator/postgres/data/pg_snapshot_generator.go: runs on a table of six pages.
use pgstream.Prelude.{◌≡◌, refl, arith, [], ◌∷◌, ltb, leb, ◌==◌, ◌&&◌, ◌||◌}
use pgstream.Snapshot.Pages.{
  TableInfo, Tid, TidOrder, calculate_batch_page_size, page_ranges, table_ranges, pages_of_bytes,
}
use pgstream.Snapshot.Pages.Once.{selecting, table_ranges-Once}

abbrev by_page : TidOrder
by_page = record {
  below = λ a b. ltb a.page b.page || ((a.page == b.page) && leb a.item b.item);
  below-pages = λ a b. refl;
}

abbrev six_pages : TableInfo
six_pages = record {
  page_count = 5;
  avg_page_bytes = 8192;
  avg_row_bytes = 100;
  batch_page_size = 0;
}

-- A limit of 20000 bytes is two pages.
ranges_of_six :
    table_ranges (calculate_batch_page_size 20000 six_pages)
    ≡ (record { start = 0; end = 2 })
      ∷ (record { start = 2; end = 4 })
      ∷ (record { start = 4; end = 6 })
      ∷ []
unfolding calculate_batch_page_size pages_of_bytes page_ranges table_ranges
ranges_of_six = refl

abbrev last_row : Tid
last_row = record { page = 5; item = 3 }

table_ranges-Once_example :
    selecting by_page last_row (table_ranges (calculate_batch_page_size 20000 six_pages)) ≡ 1
table_ranges-Once_example =
    table_ranges-Once by_page 20000 six_pages last_row (omega arith) (omega arith)
