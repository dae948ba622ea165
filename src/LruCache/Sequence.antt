-- ===== src/LruCache/Sequence.antt =====
-- Sequences of references.
use zettelkasten_public_subs.Common.{
  ℕ, zero, suc, ◌<◌, ◌≡◌, refl, ap, ◌∙◌, none, some, List, [], ◌∷◌, arith, take,
}
use zettelkasten_public_subs.LruCache.{
  Page, LruCache, new_cache, back, evict, miss, refer, refer_all,
}
use zettelkasten_public_subs.LruCache.Order.{remove, touch, touch-take, recent, recent_after}
use zettelkasten_public_subs.LruCache.Nodes.{pages}
use zettelkasten_public_subs.LruCache.Refer.{IsCache, new_cache-IsCache, refer_lem}

-- A cache that holds the pages of the references `used`, the last used ones.
refer_all_from :
    (n : ℕ) (c : LruCache) (used ps : List Page)
    → IsCache c
    → c.cache_size ≡ suc n
    → pages c.cache ≡ take (suc n) used
    → (c' : LruCache) × (refer_all ps c ≡ some c')
      × IsCache c'
      × (pages c'.cache ≡ take (suc n) (recent_after used ps))
unfolding refer_all
refer_all_from n c used [] is size order = (c, refl, is, order)
refer_all_from n c used (p ∷ ps) is size order =
    let (c', e, r) = refer_lem p c is (omega arith) in
    let order' =
      r.order
      ∙ ap (λ s. touch s p (pages c.cache)) size
      ∙ ap (touch (suc n) p) order
      ∙ touch-take n p used in
    let (c'', e', is', rest) =
      refer_all_from n c' (p ∷ remove p used) ps r.is_cache (r.same_size ∙ size) order' in
    (c'', rw e e', is', rest)

-- From an empty cache of one page or more, every sequence of references runs without undefined
-- behaviour, and leaves the pages that were used last, each once and the last used one first.
pub refer_all_lem :
    (size : ℕ) (ps : List Page)
    → 0 < size
    → (c : LruCache) × (refer_all ps (new_cache size) ≡ some c)
      × IsCache c
      × (pages c.cache ≡ take size (recent ps))
unfolding new_cache
refer_all_lem zero ps positive = absurd (omega arith)
refer_all_lem (suc n) ps positive =
    refer_all_from n (new_cache (suc n)) [] ps (new_cache-IsCache (suc n)) refl refl

-- A cache of no pages runs into undefined behaviour at its first reference, whatever the page.
pub refer_no_pages : (page : Page) → refer page (new_cache 0) ≡ none
unfolding refer new_cache miss evict back
refer_no_pages page = refl
