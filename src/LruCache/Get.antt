-- ===== src/LruCache/Get.antt =====
-- `get` and `exists` against the order of the pages.
use zettelkasten_public_subs.Common.{
  ◌≡◌, ◌⊎◌, refl, ap, ◌∙◌, sym, true, false, some, ◌∷◌, arith, ◌==◌, Bool-cases, inl, inr, subst,
}
use zettelkasten_public_subs.LruCache.{Page, LruCache, exists_page, cached, cache_error, get}
use zettelkasten_public_subs.LruCache.Order.{
  has_page, remove, Distinct, has_page-remove_self, remove-Distinct,
}
use zettelkasten_public_subs.LruCache.Nodes.{
  pages, find, without, pages-without, find_absent, find_present, front-Separate, find-without,
  length-without, unlink_lem,
}
use zettelkasten_public_subs.LruCache.Refer.{IsCache}

-- What `get page` did to `c` where it returned.
pub record Fetches (page : Page) (c c' : LruCache) : Type 0 where
  pub is_cache : IsCache c'
  pub order : pages c'.cache ≡ page ∷ remove page (pages c.cache)
  pub same_size : c'.cache_size ≡ c.cache_size
  pub same_hits : c'.hits ≡ c.hits
  pub same_faults : c'.page_faults ≡ c.page_faults

-- On every cache `get` of a page that is there returns it and moves it to the front, and nothing
-- else changes; `get` of another page throws. `exists` tells the two apart.
pub get_lem :
    (page : Page) (c : LruCache)
    → IsCache c
    → (exists_page page c ≡ has_page page (pages c.cache))
      × ((has_page page (pages c.cache) ≡ true)
            × ((c' : LruCache) × (get page c ≡ some (cached page c')) × Fetches page c c')
          ⊎ (has_page page (pages c.cache) ≡ false) × (get page c ≡ some cache_error))
unfolding get exists_page
get_lem page c is = elim (Bool-cases (has_page page (pages c.cache))) [
  | inl present ↦
      let (i, found) = find_present page c.cache present in
      let taken = unlink_lem page i c.next c.cache is.separate found in
      let ns = without page c.cache in
      let absent =
        ap (has_page page) (pages-without page c.cache)
        ∙ has_page-remove_self page (pages c.cache) is.distinct in
      let shorter = length-without page c.cache present in
      (
        rw (is.indexed page ∙ found, present) refl,
        inl (
          present,
          (
            record c { cache = (i, page) ∷ ns },
            rw (is.indexed page ∙ found, taken) refl,
            record {
              is_cache = record {
                indexed = λ q. elim (Bool-cases (q == page)) [
                  | inl same ↦
                      let e : q ≡ page = ground arith in
                      rw same (is.indexed q ∙ ap (λ p. find p c.cache) e ∙ found)
                  | inr other ↦
                      rw other (
                        is.indexed q
                        ∙ sym (find-without page q c.cache is.distinct ∙ rw other refl))
                ];
                distinct = (
                  absent,
                  subst Distinct (sym (pages-without page c.cache))
                      (remove-Distinct page (pages c.cache) is.distinct),
                );
                separate = front-Separate page i c.next c.cache is.separate found;
                bounded = omega (arith, is.bounded);
              };
              order = ap (◌∷◌ page) (pages-without page c.cache);
              same_size = refl;
              same_hits = refl;
              same_faults = refl;
            },
          ),
        ),
      )
  | inr absent ↦ (
    rw (is.indexed page ∙ find_absent page c.cache absent, absent) refl,
    inr (absent, rw (is.indexed page ∙ find_absent page c.cache absent) refl),
  )
]
