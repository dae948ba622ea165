-- ===== src/LruCache/Tests.antt =====
-- The cache on the references of `main`.
use zettelkasten_public_subs.Common.{
  ℕ, ◌≡◌, refl, true, false, none, some, List, [], ◌∷◌, arith, ◌==◌, if◌then◌else◌, ◌⊎◌, take,
  ◌>>=◌,
}
use zettelkasten_public_subs.LruCache.{
  Page, LruCache, new_cache, refer, refer_all, get, cached, cache_error, exists_page, unlink, evict,
  miss, hit, push_page, back, pop_back,
}
use zettelkasten_public_subs.LruCache.Order.{has_page, recent}
use zettelkasten_public_subs.LruCache.Nodes.{pages}
use zettelkasten_public_subs.LruCache.Refer.{IsCache, Refers, new_cache-IsCache, refer_lem}
use zettelkasten_public_subs.LruCache.Sequence.{refer_all_lem}
use zettelkasten_public_subs.LruCache.Get.{Fetches, get_lem}

abbrev references : List Page
references = 1 ∷ 2 ∷ 5 ∷ 1 ∷ 4 ∷ 5 ∷ []

abbrev report : LruCache → ℕ × ℕ × List Page
report c = (c.hits, c.page_faults, pages c.cache)

-- The counts and the order that `main` expects.
main_counts :
    (refer_all references (new_cache 4) >>= λ c. some (report c)) ≡ some (2, 4, 5 ∷ 4 ∷ 1 ∷ 2 ∷ [])
unfolding refer_all refer new_cache miss hit evict back pop_back unlink push_page
main_counts = refl

refer_lem_example : (c : LruCache) × (refer 7 (new_cache 4) ≡ some c) × Refers 7 (new_cache 4) c
unfolding new_cache
refer_lem_example = refer_lem 7 (new_cache 4) (new_cache-IsCache 4) (omega arith)

refer_all_lem_example :
    (c : LruCache) × (refer_all references (new_cache 4) ≡ some c)
    × IsCache c
    × (pages c.cache ≡ take 4 (recent references))
refer_all_lem_example = refer_all_lem 4 references (omega arith)

-- The cache with the page 7.
abbrev one_page : LruCache
one_page = record {
  cache_size = 4;
  page_map = λ p. if p == 7 then some 0 else none;
  cache = (0, 7) ∷ [];
  hits = 0;
  page_faults = 1;
  next = 1;
}

one_page-IsCache : IsCache one_page
one_page-IsCache = record {
  indexed = λ p. refl;
  distinct = (refl, tt);
  separate = (omega arith, refl, tt);
  bounded = omega arith;
}

get_lem_example :
    (exists_page 7 one_page ≡ has_page 7 (7 ∷ []))
    × ((has_page 7 (7 ∷ []) ≡ true)
          × ((c : LruCache) × (get 7 one_page ≡ some (cached 7 c)) × Fetches 7 one_page c)
        ⊎ (has_page 7 (7 ∷ []) ≡ false) × (get 7 one_page ≡ some cache_error))
get_lem_example = get_lem 7 one_page one_page-IsCache
