-- ===== src/Sitemap/Run/Selection.antt =====
-- The URLs of a report against a description of them: add of pkg/sitemap/service.go.
use pagelode.Prelude.{
  ℕ, zero, suc, ◌-◌, ◌≡◌, refl, arith, Str, List, [], ◌∷◌, ◌++◌, true, false, ◌||◌, not, str_eq,
  member, take, length, length-append, map, Bool-cases, inl, inr, ◌∙◌, sym,
}
use mathlib.Core.List.{append_assoc, append-nil}
use pagelode.Url.{NetUrl}
use pagelode.Sitemap.Types.{Request}
use pagelode.Sitemap.Run.{
  Run, Candidate, entry_of, full, add, add_all, is_permitted, limited, with_entry,
}

module _ {U : Type 0} (net : NetUrl U) where
  -- The candidates with a URL that the request permits, the first of each URL, without the URLs in a
  -- set.
  pub distinct : Request → List Str → List Candidate → List Candidate
  distinct request seen [] = []
  distinct request seen (c ∷ cs) =
      elim (str_eq c.url [] || member c.url seen || not (is_permitted net request c.url)) [
        | true ↦ distinct request seen cs
        | false ↦ c ∷ distinct request (c.url ∷ seen) cs
      ]

  -- The room of the report.
  abbrev room : Run → ℕ
  room r = r.request.limit - length r.report.urls

  -- What follows add, where the report has room, and where it has none.
  add_all-full :
      (cs : List Candidate) (r : Run)
      → full r ≡ true
      → (add_all net r cs).report.urls ≡ r.report.urls
  unfolding add_all add
  add_all-full [] r f = refl
  add_all-full (c ∷ cs) r f =
      elim (Bool-cases
        (str_eq c.url [] || member c.url r.seen || not (is_permitted net r.request c.url))) [
          | inl out ↦ simp out (add_all-full cs r f)
          | inr fresh ↦ simp (fresh, f) (add_all-full cs (limited r) f)
        ]

  take-nil : {A : Type 0} (n : ℕ) → take {A = A} n [] ≡ []
  take-nil zero = refl
  take-nil (suc n) = refl

  -- The room behind a new entry.
  room-with_entry :
      (r : Run) (c : Candidate) → full r ≡ false → room r ≡ suc (room (with_entry r c))
  unfolding full
  room-with_entry r c f = ground (arith, length-append r.report.urls (entry_of c ∷ []))

  room-full : (r : Run) → full r ≡ true → room r ≡ 0
  unfolding full
  room-full r f = ground arith

  -- However candidates are offered to a report, its URLs are those that it had, followed by the
  -- distinct permitted ones among the candidates, in their order and with the source and date of the
  -- first that names each, as many as the limit leaves room for.
  pub urls-add_all :
      (cs : List Candidate) (r : Run)
      → (add_all net r cs).report.urls
        ≡ r.report.urls ++ map entry_of (take (room r) (distinct r.request r.seen cs))
  unfolding add_all add distinct
  urls-add_all [] r = rw (take-nil (room r)) (sym (append-nil r.report.urls))
  urls-add_all (c ∷ cs) r =
      elim (Bool-cases
        (str_eq c.url [] || member c.url r.seen || not (is_permitted net r.request c.url))) [
          | inl out ↦ simp (out, distinct) (urls-add_all cs r)
          | inr fresh ↦ elim (Bool-cases (full r)) [
            | inl f ↦
                simp (fresh, f, distinct)
                  (add_all-full cs (limited r) f
                    ∙ rw (room-full r f) (sym (append-nil r.report.urls)))
            | inr f ↦
                simp (fresh, f, distinct)
                  (urls-add_all cs (with_entry r c)
                    ∙ rw (room-with_entry r c f) (append_assoc r.report.urls (entry_of c ∷ []) _))
          ]
        ]
