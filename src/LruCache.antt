-- ===== src/LruCache.antt =====
-- lru_cache of 2021-11-29-LRU-cache/lru_cache.cpp, at `T = uint64_t` as in its `main`. A node of the
-- std::list is known by a number, which is what an iterator to it holds; a number is never used
-- again. The unordered_map is a function. A result `none` is undefined behaviour: `back` of an empty
-- list, or an iterator to a node that is gone.
pub mod Nodes
pub mod Order
pub mod Refer
pub mod Sequence
pub mod Get
pub mod Tests
use zettelkasten_public_subs.Common.{
  ℕ, ◌+◌, ◌%◌, ◌^◌, Bool, true, false, Option, none, some, List, [], ◌∷◌, map, ◌==◌, if◌then◌else◌,
  length, ◌>>=◌, is_some,
}

abbrev pub Page : Type 0
Page = ℕ

-- The nodes of the list from the front on: the number and the page of each.
abbrev pub Nodes : Type 0
Nodes = List (ℕ × Page)

pub record LruCache : Type 0 where
  pub cache_size : ℕ
  pub page_map : Page → Option ℕ
  pub cache : Nodes
  pub hits : ℕ
  pub page_faults : ℕ
  -- The number that the next node gets.
  pub next : ℕ

-- `lru_cache(cache_size)`
unfoldable pub new_cache : ℕ → LruCache
new_cache size = record {
  cache_size = size;
  page_map = λ p. none;
  cache = [];
  hits = 0;
  page_faults = 0;
  next = 0;
}

-- `back`
unfoldable pub back : Nodes → Option Page
back [] = none
back ((i, q) ∷ []) = some q
back ((i, q) ∷ n ∷ ns) = back (n ∷ ns)

unfoldable pub pop_back : Nodes → Nodes
pop_back [] = []
pop_back (n ∷ []) = []
pop_back (n ∷ m ∷ ns) = n ∷ pop_back (m ∷ ns)

-- The node that an iterator points to, and the nodes without it.
unfoldable pub unlink : ℕ → Nodes → Option ((ℕ × Page) × Nodes)
unlink i [] = none
unlink i ((j, q) ∷ ns) =
    let rest = unlink i ns in
    if i == j then some ((j, q), ns) else (do (n, ms) ← rest; some (n, (j, q) ∷ ms))

abbrev pub map_erase : Page → (Page → Option ℕ) → Page → Option ℕ
map_erase p m q = if q == p then none else m q

abbrev pub map_assign : Page → ℕ → (Page → Option ℕ) → Page → Option ℕ
map_assign p i m q = if q == p then some i else m q

-- The two branches of `refer`.
unfoldable pub evict : LruCache → Option LruCache
evict c =
    if length c.cache == c.cache_size
    then (do
      last_page ← back c.cache
      some (record c { cache = pop_back c.cache; page_map = map_erase last_page c.page_map }))
    else some c

unfoldable pub miss : LruCache → Option LruCache
miss c = evict (record c { page_faults = (c.page_faults + 1) % 2 ^ 64 })

unfoldable pub hit : ℕ → LruCache → Option LruCache
hit i c = do
  (n, ns) ← unlink i c.cache
  some (record c { hits = (c.hits + 1) % 2 ^ 64; cache = ns })

-- The last two statements of `refer`.
unfoldable pub push_page : Page → LruCache → LruCache
push_page page c = record c {
  cache = (c.next, page) ∷ c.cache;
  page_map = map_assign page c.next c.page_map;
  next = c.next + 1;
}

abbrev pub make_room : LruCache → Option ℕ → Option LruCache
make_room c none = miss c
make_room c (some i) = hit i c

unfoldable pub refer : Page → LruCache → Option LruCache
refer page c = do c' ← make_room c (c.page_map page); some (push_page page c')

unfoldable pub exists_page : Page → LruCache → Bool
exists_page page c = is_some (c.page_map page)

-- What `get` does: it returns a page, or throws `cache_error`.
pub data Got : Type 0 where
  cached : Page → LruCache → Got
  cache_error : Got

abbrev pub get_at : Page → LruCache → Option ℕ → Option Got
get_at page c none = some cache_error
get_at page c (some i) = do
  (n, ns) ← unlink i c.cache
  some (cached page (record c { cache = n ∷ ns }))

unfoldable pub get : Page → LruCache → Option Got
get page c = get_at page c (c.page_map page)

-- The references of `pages`, the first one first.
unfoldable pub refer_all : List Page → LruCache → Option LruCache
refer_all [] c = some c
refer_all (p ∷ ps) c = do c' ← refer p c; refer_all ps c'
