-- ===== src/Emails/Search/Addresses.antt =====
-- The positions of the addresses in the report of an e-mail search: pkg/emails/search.go.
use pagelode.Prelude.{
  ℕ, zero, suc, ◌≡◌, refl, arith, Str, List, [], ◌∷◌, ◌++◌, Option, none, some, length, Bool-cases,
  inl, inr, ◌⊎◌, Bool, true, false, if◌then◌else◌, ◌∙◌, sym, ap, leb, get, get-put, get_elem?,
  str_eq, str_eq_iff, any,
}
use mathlib.Core.Path.{subst}
use pagelode.Emails.Types.{Request, Address, Source}
use pagelode.Emails.Search.{
  Match, Search, with_address, warn, add_source, update_at, add_source_at, record_new, record_known,
  record_match, record_all,
}

-- The address at a position.
abbrev pub address_at : List Address → ℕ → Option Str
address_at emails n = elim (get_elem? emails n) [ none ↦ none | some a ↦ some a.address ]

-- The known addresses are those of the report, and each stands at its position.
abbrev pub IsIndexed : Search → Type 0
IsIndexed s =
    ((address : Str) (n : ℕ)
      → get s.addresses address ≡ some n
      → address_at s.report.emails n ≡ some address)
    × ((address : Str) (n : ℕ)
        → address_at s.report.emails n ≡ some address
        → get s.addresses address ≡ some n)

address_at-append :
    (emails more : List Address) (n : ℕ) {address : Str}
    → address_at emails n ≡ some address
    → address_at (emails ++ more) n ≡ some address
address_at-append [] more n e = absurd (ground arith)
address_at-append (a ∷ emails) more zero e = e
address_at-append (a ∷ emails) more (suc n) e = address_at-append emails more n e

address_at-length :
    (emails : List Address) (a : Address)
    → address_at (emails ++ a ∷ []) (length emails) ≡ some a.address
address_at-length [] a = refl
address_at-length (b ∷ emails) a = address_at-length emails a

address-add_source : (source : Source) (a : Address) → (add_source source a).address ≡ a.address
unfolding add_source
address-add_source source a = ground arith

address_at-update_at :
    (emails : List Address) (n m : ℕ) (source : Source)
    → address_at (update_at emails m (add_source source)) n ≡ address_at emails n
unfolding update_at
address_at-update_at [] n m source = refl
address_at-update_at (a ∷ emails) zero zero source = ap some (address-add_source source a)
address_at-update_at (a ∷ emails) (suc n) zero source = refl
address_at-update_at (a ∷ emails) zero (suc m) source = refl
address_at-update_at (a ∷ emails) (suc n) (suc m) source = address_at-update_at emails n m source

address_at-last :
    (emails : List Address) (a : Address) (n : ℕ) {address : Str}
    → address_at (emails ++ a ∷ []) n ≡ some address
    → (address_at emails n ≡ some address) ⊎ ((length emails ≡ n) × (a.address ≡ address))
address_at-last [] a zero {address = address} e =
    inr (refl, ap (λ (x : Option Str). elim x [ none ↦ a.address | some y ↦ y ]) e)
address_at-last [] a (suc n) e = absurd (ground arith)
address_at-last (b ∷ emails) a zero e = inl e
address_at-last (b ∷ emails) a (suc n) e = elim (address_at-last emails a n e) [
  | inl old ↦ inl old
  | inr (last, same) ↦ inr (ap suc last, same)
]

-- What record does to the report, by addresses alone: the source goes to the address, which is new
-- behind the others if there is room for it.
abbrev pub has_address : Str → List Address → Bool
has_address address emails = any (λ (a : Address). str_eq a.address address) emails

abbrev pub add_to : Str → Source → List Address → List Address
add_to address source [] = []
add_to address source (a ∷ rest) =
    let others = add_to address source rest in
    if str_eq a.address address then add_source source a ∷ rest else a ∷ others

abbrev pub credited : ℕ → Str → Source → List Address → List Address
credited room address source emails =
    if has_address address emails
    then add_to address source emails
    else if leb room (length emails)
    then emails
    else emails ++ record { address = address; sources = source ∷ [] } ∷ []

abbrev pub credited_all : (Str → Str) → ℕ → List Match → Str → List Address → List Address
credited_all public_url room [] base emails = emails
credited_all public_url room (found ∷ rest) base emails = credited_all public_url room rest base (
    credited room found.address
      (record {
        url = public_url (if str_eq found.source [] then base else found.source);
        found_in = found.kind;
      })
      emails)

-- The position of the address is the one at which it stands alone.
update_at-add_to :
    (emails : List Address) (n : ℕ) (address : Str) (source : Source)
    → address_at emails n ≡ some address
    → ((m : ℕ) → address_at emails m ≡ some address → m ≡ n)
    → update_at emails n (add_source source) ≡ add_to address source emails
unfolding update_at
update_at-add_to [] n address source e alone = refl
update_at-add_to (a ∷ emails) zero address source e alone =
    let same : a.address ≡ address =
      ap (λ (x : Option Str). elim x [ none ↦ a.address | some y ↦ y ]) e in
    rw ((str_eq_iff a.address address).1 same) refl
update_at-add_to (a ∷ emails) (suc n) address source e alone =
    elim (Bool-cases (str_eq a.address address)) [
      | inl same ↦
          absurd (omega (arith, alone zero (ap some ((str_eq_iff a.address address).0 same))))
      | inr other ↦ rw other (
          ap (λ xs. a ∷ xs)
            (update_at-add_to emails n address source e (λ m h. omega (arith, alone (suc m) h))))
    ]

has_address-at :
    (emails : List Address) (n : ℕ) (address : Str)
    → address_at emails n ≡ some address
    → has_address address emails ≡ true
has_address-at [] n address e = absurd (ground arith)
has_address-at (a ∷ emails) zero address e =
    let same : a.address ≡ address =
      ap (λ (x : Option Str). elim x [ none ↦ a.address | some y ↦ y ]) e in
    rw ((str_eq_iff a.address address).1 same) refl
has_address-at (a ∷ emails) (suc n) address e = ground (arith, has_address-at emails n address e)

has_address-nowhere :
    (emails : List Address) (address : Str)
    → ((n : ℕ) → address_at emails n ≡ some address → ⊥)
    → has_address address emails ≡ false
has_address-nowhere [] address h = refl
has_address-nowhere (a ∷ emails) address h = elim (Bool-cases (str_eq a.address address)) [
  | inl same ↦ absurd (h zero (ap some ((str_eq_iff a.address address).0 same)))
  | inr other ↦ rw other (has_address-nowhere emails address (λ n. h (suc n)))
]

update_at-last :
    (emails : List Address) (a : Address) (f : Address → Address)
    → update_at (emails ++ a ∷ []) (length emails) f ≡ emails ++ f a ∷ []
unfolding update_at
update_at-last [] a f = refl
update_at-last (b ∷ emails) a f = ap (λ xs. b ∷ xs) (update_at-last emails a f)

add_source_at-IsIndexed :
    (s : Search) (source : Source) (m : ℕ) → IsIndexed s → IsIndexed (add_source_at s source m)
unfolding add_source_at
add_source_at-IsIndexed s source m (h, g) = (
  λ address n e. address_at-update_at s.report.emails n m source ∙ h address n e,
  λ address n e. g address n (sym (address_at-update_at s.report.emails n m source) ∙ e),
)

-- A warning leaves the addresses.
warn-IsIndexed : (s : Search) (message : Str) → IsIndexed s → IsIndexed (warn s message)
unfolding warn
warn-IsIndexed s message h = elim (Bool-cases (any (λ w. str_eq w message) s.report.warnings)) [
  | inl old ↦ simp old h
  | inr new ↦ simp new h
]

request-warn : (s : Search) (message : Str) → (warn s message).request ≡ s.request
unfolding warn
request-warn s message = ground arith

emails-warn : (s : Search) (message : Str) → (warn s message).report.emails ≡ s.report.emails
unfolding warn
emails-warn s message = ground arith

address-IsIndexed :
    (s : Search) (new : Str)
    → get s.addresses new ≡ none
    → IsIndexed s
    → IsIndexed (with_address s new)
address-IsIndexed s new unknown (h, g) =
    let a : Address = record { address = new; sources = [] } in
    (
      λ address n e.
          let at_new = get-put s.addresses new (length s.report.emails) address in
          elim (Bool-cases (str_eq new address)) [
            | inl same ↦
                let last : length s.report.emails ≡ n = ground (arith, at_new, same, e) in
                subst (λ k. address_at (s.report.emails ++ a ∷ []) k ≡ some address) last
                  (address_at-length s.report.emails a ∙ ap some ((str_eq_iff new address).0 same))
            | inr other ↦
                address_at-append s.report.emails _ n (h address n (sym (rw other at at_new) ∙ e))
          ],
      λ address n e.
          let at_new = get-put s.addresses new (length s.report.emails) address in
          elim (address_at-last s.report.emails a n e) [
            | inl old ↦ elim (Bool-cases (str_eq new address)) [
              | inl same ↦
                  let known : get s.addresses new ≡ some n =
                    subst (λ x. get s.addresses x ≡ some n) (sym ((str_eq_iff new address).0 same))
                      (g address n old) in
                  absurd (ground (arith, known, unknown))
              | inr other ↦ rw other at at_new ∙ g address n old
            ]
            | inr (last, same) ↦ rw ((str_eq_iff new address).1 same) at at_new ∙ ap some last
          ],
    )

record_known-IsIndexed :
    (s : Search) (address : Str) (source : Source) (n : Option ℕ)
    → get s.addresses address ≡ n
    → IsIndexed s
    → IsIndexed (record_known s address source n)
      × ((record_known s address source n).report.emails
          ≡ credited s.request.max_emails address source s.report.emails)
      × ((record_known s address source n).request ≡ s.request)
unfolding record_known record_new add_source_at
record_known-IsIndexed s address source (some n) known (h, g) = (
  add_source_at-IsIndexed s source n (h, g),
  rw (has_address-at s.report.emails n address (h address n known)) (
      update_at-add_to s.report.emails n address source (h address n known) (λ m e.
        ap (λ (x : Option ℕ). elim x [ none ↦ m | some y ↦ y ]) (sym (g address m e) ∙ known))),
  refl,
)
record_known-IsIndexed s address source none unknown (h, g) =
    let absent =
      has_address-nowhere s.report.emails address (λ n e. ground (arith, g address n e, unknown)) in
    elim (Bool-cases (leb s.request.max_emails (length s.report.emails))) [
      | inl full ↦
          simp (full, absent) (warn-IsIndexed s _ (h, g), emails-warn s _, request-warn s _)
      | inr room ↦
          simp (room, absent)
            (
              add_source_at-IsIndexed (with_address s address) source _
                  (address-IsIndexed s address unknown (h, g)),
              update_at-last s.report.emails (record { address = address; sources = [] })
                  (add_source source),
              refl,
            )
    ]

-- Recording addresses by positions is recording them by address. If the known addresses are those of
-- the report, each at its position, they are so afterwards; each source has gone to the entry of its
-- own address, once, or to a new entry of that address where there is room for one; and no other
-- entry has changed.
pub record_all-IsIndexed :
    (public_url : Str → Str) (s : Search) (matches : List Match) (base : Str)
    → IsIndexed s
    → IsIndexed (record_all public_url s matches base)
      × ((record_all public_url s matches base).report.emails
          ≡ credited_all public_url s.request.max_emails matches base s.report.emails)
unfolding record_all record_match
record_all-IsIndexed public_url s [] base h = (h, refl)
record_all-IsIndexed public_url s (found ∷ rest) base h =
    let (indexed, emails, asks) =
      record_known-IsIndexed s found.address _ (get s.addresses found.address) refl h in
    let (all, more) =
      record_all-IsIndexed public_url (record_match public_url s found base) rest base indexed in
    (
      all,
      more
          ∙ ap
              (λ (q : Request).
                credited_all public_url q.max_emails rest base
                  (record_match public_url s found base).report.emails)
              asks
          ∙ ap (λ es. credited_all public_url s.request.max_emails rest base es) emails,
    )
