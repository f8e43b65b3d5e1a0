-- ===== src/BaiduDns/Paging.antt =====
-- baidu_dns.go: `listRecords` gets the whole zone.
use ssh_tunnel_manager.BaiduDns.{
  Api, DnsTarget, page, get_page, listed, list_pages, list_records, page_size, max_pages,
}
use ssh_tunnel_manager.Common.{
  take_nil, ℕ, zero, suc, ◌+◌, ◌*◌, ◌<◌, ◌≡◌, refl, sym, ap, ◌∙◌, true, List, [], ◌∷◌, ◌++◌, Text,
  ltb, length, take, drop, arith, Bool-cases, inl, inr, append-nil, append_assoc,
}

module _ {ℓ} {A : Type ℓ} where
  drop_nil : (n : ℕ) → drop {A = A} n [] ≡ []
  drop_nil zero = refl
  drop_nil (suc n) = refl

  take_add : (a b n : ℕ) (xs : List A) → n ≡ a + b → take n xs ≡ take a xs ++ take b (drop a xs)
  take_add zero b n xs e = ap (λ k. take k xs) (omega arith)
  take_add (suc a) b zero xs e = absurd (omega arith)
  take_add (suc a) b (suc n) [] e = sym (take_nil b)
  take_add (suc a) b (suc n) (x ∷ xs) e = ap (λ ys. x ∷ ys) (take_add a b n xs (omega arith))

  drop_add : (a b n : ℕ) (xs : List A) → n ≡ a + b → drop n xs ≡ drop b (drop a xs)
  drop_add zero b n xs e = ap (λ k. drop k xs) (omega arith)
  drop_add (suc a) b zero xs e = absurd (omega arith)
  drop_add (suc a) b (suc n) [] e = sym (drop_nil b)
  drop_add (suc a) b (suc n) (x ∷ xs) e = drop_add a b n xs (omega arith)

  -- A cut that gives less than it is asked for gives everything.
  drop_short : (a : ℕ) (xs : List A) → length (take a xs) < a → drop a xs ≡ []
  drop_short zero xs h = absurd (omega arith)
  drop_short (suc a) [] h = refl
  drop_short (suc a) (x ∷ xs) h = drop_short a xs (omega arith)

ltb_lt : (a b : ℕ) → ltb a b ≡ true → a < b
ltb_lt a b h = ground arith

-- Page `n` of a zone, from 0.
abbrev pub zone_page : List Text → ℕ → List Text
zone_page zone n = take page_size (drop (n * page_size) zone)

module _ (api : Api) (d : DnsTarget) (zone : List Text) where
  list_pages_lem :
      (left n : ℕ) (all : List Text)
      → ((i : ℕ) → i < n + left → get_page api d (suc i) ≡ page (zone_page zone i))
      → list_pages api d left (suc n) all
        ≡ listed (all ++ take (left * page_size) (drop (n * page_size) zone))
  unfolding list_pages
  list_pages_lem zero n all h = ap listed (sym (append-nil all))
  list_pages_lem (suc left) n all h =
      let here = h n (omega arith) in
      elim (Bool-cases (ltb (length (zone_page zone n)) page_size)) [
        | inl y ↦ rw (here, list_pages) (rw (y) (ap (λ ys. listed (all ++ ys)) (short y)))
        | inr f ↦
            rw (here, list_pages)
              (rw (f) (
                list_pages_lem left (suc n) (all ++ zone_page zone n) (λ i k. h i (omega arith))
                ∙ ap listed (append_assoc all (zone_page zone n) _)
                ∙ ap (λ ys. listed (all ++ ys)) long))
      ]
    where
      start : List Text
      start = drop (n * page_size) zone

      short :
          ltb (length (zone_page zone n)) page_size ≡ true
          → zone_page zone n ≡ take (suc left * page_size) start
      short y =
          let gone = drop_short page_size start (ltb_lt (length (zone_page zone n)) page_size y) in
          sym (
            take_add page_size (left * page_size) (suc left * page_size) start (omega arith)
            ∙ ap (λ ys. take page_size start ++ ys)
                (ap (take (left * page_size)) gone ∙ take_nil (left * page_size))
            ∙ append-nil (take page_size start))

      long :
          zone_page zone n ++ take (left * page_size) (drop (suc n * page_size) zone)
          ≡ take (suc left * page_size) start
      long =
          ap (λ ys. zone_page zone n ++ take (left * page_size) ys)
            (drop_add (n * page_size) page_size (suc n * page_size) zone (omega arith))
          ∙ sym (take_add page_size (left * page_size) (suc left * page_size) start (omega arith))

  -- When the API answers the first ten requests with the pages of a zone, the first thousand records of
  -- the zone are listed, in their order: all of them when there are no more.
  pub list_records-take :
      ((i : ℕ) → i < max_pages → get_page api d (suc i) ≡ page (zone_page zone i))
      → list_records api d ≡ listed (take 1000 zone)
  unfolding list_records
  list_records-take h = list_pages_lem max_pages 0 [] h
