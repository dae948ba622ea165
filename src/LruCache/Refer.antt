-- ===== src/LruCache/Refer.antt =====
-- `refer` against the order of the pages.
use zettelkasten_public_subs.Common.{
  ℕ, suc, ◌+◌, ◌%◌, ◌^◌, ◌≤◌, ◌<◌, ◌≡◌, refl, ap, ◌∙◌, sym, true, false, some, [], ◌∷◌, arith, ◌==◌,
  if◌then◌else◌, length, Bool-cases, inl, inr, length-map, subst,
}
use zettelkasten_public_subs.LruCache.{
  Page, Nodes, LruCache, new_cache, back, pop_back, map_erase, evict, miss, hit, push_page, refer,
}
use zettelkasten_public_subs.LruCache.Order.{
  has_page, drop_last, Distinct, touch, has_page-remove, has_page-remove_self, remove-Distinct,
}
use zettelkasten_public_subs.LruCache.Nodes.{
  pages, find, has_node, Separate, without, pages-without, find_absent, find_present,
  without-Separate, find-without, length-without, unlink_lem, pop_back_lem, pages-pop_back,
}

-- The map leads from each page of the list to its node; no page stands twice, and there are at most
-- `cache_size`.
pub record IsCache (c : LruCache) : Type 0 where
  pub indexed : (p : Page) → c.page_map p ≡ find p c.cache
  pub distinct : Distinct (pages c.cache)
  pub separate : Separate c.next c.cache
  pub bounded : length c.cache ≤ c.cache_size

pub new_cache-IsCache : (size : ℕ) → IsCache (new_cache size)
unfolding new_cache
new_cache-IsCache size = record {
  indexed = λ p. refl;
  distinct = tt;
  separate = tt;
  bounded = omega arith;
}

Separate-mono : (n m : ℕ) (ns : Nodes) → n ≤ m → Separate n ns → Separate m ns
Separate-mono n m [] le s = tt
Separate-mono n m ((i, q) ∷ ns) le s = (omega arith, s.1, Separate-mono n m ns le s.2)

not-has_node : (n : ℕ) (ns : Nodes) → Separate n ns → has_node n ns ≡ false
not-has_node n [] s = refl
not-has_node n ((i, q) ∷ ns) s = ground (arith, not-has_node n ns)

push_page-IsCache :
    (p : Page) (c : LruCache)
    → IsCache c
    → has_page p (pages c.cache) ≡ false
    → suc (length c.cache) ≤ c.cache_size
    → IsCache (push_page p c)
unfolding push_page
push_page-IsCache p c is absent room = record {
  indexed = λ q. ground (arith, is.indexed q);
  distinct = (absent, is.distinct);
  separate = (
    omega arith,
    not-has_node c.next c.cache is.separate,
    Separate-mono c.next (c.next + 1) c.cache (omega arith) is.separate,
  );
  bounded = room;
}

length-pages : (ns : Nodes) → length (pages ns) ≡ length ns
length-pages ns = length-map ns (λ n. n.1)

-- A cache `c'` that `c` becomes when a page is missed.
record Missed (c : LruCache) (c' : LruCache) : Type 0 where
  is_cache : IsCache c'
  order :
      pages c'.cache
      ≡ (if length c.cache == c.cache_size then drop_last (pages c.cache) else pages c.cache)
  room : suc (length c'.cache) ≤ c'.cache_size
  same_size : c'.cache_size ≡ c.cache_size
  same_hits : c'.hits ≡ c.hits
  same_faults : c'.page_faults ≡ c.page_faults
  fewer : (p : Page) → has_page p (pages c.cache) ≡ false → has_page p (pages c'.cache) ≡ false

some_last :
    (ns : Nodes)
    → 0 < length ns
    → Distinct (pages ns)
    → (q : Page) × (back ns ≡ some q)
      × (has_page q (pages ns) ≡ true)
      × (pop_back ns ≡ without q ns)
some_last [] positive d = absurd (omega arith)
some_last (n ∷ ns) positive d = pop_back_lem n ns d

evict_lem :
    (c : LruCache)
    → IsCache c
    → 0 < c.cache_size
    → (c' : LruCache) × (evict c ≡ some c') × Missed c c'
unfolding evict
evict_lem c is positive = elim (Bool-cases (length c.cache == c.cache_size)) [
  | inl full ↦
      let (q, last, member, same) = some_last c.cache (ground arith) is.distinct in
      let shorter = length-without q c.cache member in
      (
        record c { cache = pop_back c.cache; page_map = map_erase q c.page_map },
        rw (full, last) refl,
        record {
          is_cache = record {
            indexed = λ p. rw (same, find-without q p c.cache is.distinct, is.indexed p) refl;
            distinct =
                subst Distinct (sym (ap pages same ∙ pages-without q c.cache))
                  (remove-Distinct q (pages c.cache) is.distinct);
            separate =
                subst (Separate c.next) (sym same) (without-Separate q c.next c.cache is.separate);
            bounded = rw same (ground arith);
          };
          order = rw full (pages-pop_back c.cache);
          room = rw same (ground arith);
          same_size = refl;
          same_hits = refl;
          same_faults = refl;
          fewer = λ p absent.
              rw (ap pages same ∙ pages-without q c.cache)
                (has_page-remove q p (pages c.cache) absent);
        },
      )
  | inr room ↦ (
    c,
    rw room refl,
    record {
      is_cache = is;
      order = rw room refl;
      room = ground (arith, is.bounded);
      same_size = refl;
      same_hits = refl;
      same_faults = refl;
      fewer = λ p absent. absent;
    },
  )
]

-- What `refer page` did to `c`.
pub record Refers (page : Page) (c c' : LruCache) : Type 0 where
  pub is_cache : IsCache c'
  pub order : pages c'.cache ≡ touch c.cache_size page (pages c.cache)
  pub same_size : c'.cache_size ≡ c.cache_size
  pub hits : c'.hits ≡ (if has_page page (pages c.cache) then (c.hits + 1) % 2 ^ 64 else c.hits)
  pub faults :
      c'.page_faults
      ≡ (if has_page page (pages c.cache) then c.page_faults else (c.page_faults + 1) % 2 ^ 64)

-- On a cache of one page or more `refer` runs without undefined behaviour, keeps the map and the
-- list in step, counts a hit or a page fault, and puts the page in front: a page that is there
-- moves, and one that is not pushes out the last page where the cache is full.
pub refer_lem :
    (page : Page) (c : LruCache)
    → IsCache c
    → 0 < c.cache_size
    → (c' : LruCache) × (refer page c ≡ some c') × Refers page c c'
unfolding refer miss hit push_page
refer_lem page c is positive = elim (Bool-cases (has_page page (pages c.cache))) [
  | inl present ↦
      let (i, found) = find_present page c.cache present in
      let taken = unlink_lem page i c.next c.cache is.separate found in
      let absent =
        ap (has_page page) (pages-without page c.cache)
        ∙ has_page-remove_self page (pages c.cache) is.distinct in
      let shorter = length-without page c.cache present in
      let room = record c { hits = (c.hits + 1) % 2 ^ 64; cache = without page c.cache } in
      (
        push_page page room,
        rw (is.indexed page ∙ found, taken) refl,
        record {
          is_cache = record {
            indexed = λ q. ground (arith, is.indexed q, find-without page q c.cache is.distinct);
            distinct = (
              absent,
              subst Distinct (sym (pages-without page c.cache))
                  (remove-Distinct page (pages c.cache) is.distinct),
            );
            separate =
                let kept = without-Separate page c.next c.cache is.separate in
                (
                  omega arith,
                  not-has_node c.next (without page c.cache) kept,
                  Separate-mono c.next (c.next + 1) (without page c.cache) (omega arith) kept,
                );
            bounded = omega (arith, is.bounded);
          };
          order = rw (present, pages-without page c.cache) refl;
          same_size = refl;
          hits = rw present refl;
          faults = rw present refl;
        },
      )
  | inr absent ↦
      let (c', e, m) =
        evict_lem (record c { page_faults = (c.page_faults + 1) % 2 ^ 64 })
          (record {
            indexed = is.indexed;
            distinct = is.distinct;
            separate = is.separate;
            bounded = is.bounded;
          })
          positive in
      (
        push_page page c',
        rw (is.indexed page ∙ find_absent page c.cache absent, e) refl,
        record {
          is_cache = push_page-IsCache page c' m.is_cache (m.fewer page absent) m.room;
          order = rw (absent, m.order) (ground (arith, length-pages c.cache));
          same_size = m.same_size;
          hits = rw absent m.same_hits;
          faults = rw absent m.same_faults;
        },
      )
]
