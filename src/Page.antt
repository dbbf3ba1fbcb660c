-- ===== src/Page.antt =====
-- A page of guest memory: `PAGE_SIZE` of chronos-mem/src/guarded_memory.rs, and the page of zeros.
use chronos_uvm.Prelude.{ℕ, ◌≡◌, List, length, length-replicate, replicate}

abbrev pub page_size : ℕ
page_size = 4096

-- `[0u8; PAGE_SIZE]`
unfoldable pub zero_page : List ℕ
zero_page = replicate page_size 0

pub length-zero_page : length zero_page ≡ page_size
unfolding zero_page
length-zero_page = length-replicate {A = ℕ} page_size 0
