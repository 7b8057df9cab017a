-- ===== src/Emails/Search/Limits.antt =====
-- What the operations of an e-mail search leave of its limits, and how much work they leave.
use pagelode.Prelude.{
  ℕ, zero, suc, ◌+◌, ◌-◌, ◌≤◌, ◌≡◌, refl, arith, Str, List, [], ◌∷◌, ◌++◌, Option, none, some, Bool,
  true, false, length, length-append, ltb, if◌then◌else◌, Bool-cases, inl, inr, ◌∙◌, ap, leb, get,
  any, str_eq,
}
use pagelode.Emails.Types.{Source, Address}
use pagelode.Emails.Targets.{Target, max_candidates}
use pagelode.Url.{NetUrl}
use pagelode.Emails.Search.{
  Match, Loaded, Search, Readers, has_url, with_address, add, add_all, warn, add_source, update_at,
  add_source_at, record_new, record_known, record_match, record_all, is_unusable, consume_sitemap,
  consume_failed, keep_page, consume_page, consume,
}

-- The targets that the queue holds and may still take in.
abbrev pub work : Search → ℕ
work s = (max_candidates - length s.seen) + length s.queue

-- The pages that a target adds to the report.
abbrev pub pages_of : Target → ℕ
pages_of item = if item.sitemap then 0 else 1

-- A change of the state by n pages of the report that keeps its limits and its work.
pub record Grows (n : ℕ) (s t : Search) : Type 0 where
  pub asks : t.request ≡ s.request
  pub asked : t.sitemap_requests ≡ s.sitemap_requests
  pub paged : length t.report.pages ≡ length s.report.pages + n
  pub mailed :
      length s.report.emails ≤ s.request.max_emails → length t.report.emails ≤ s.request.max_emails
  pub bounded : length s.seen ≤ max_candidates → length t.seen ≤ max_candidates
  pub weighed : work t ≡ work s

pub stays : (s : Search) → Grows 0 s s
stays s = record {
  asks = refl;
  asked = refl;
  paged = omega arith;
  mailed = λ h. h;
  bounded = λ h. h;
  weighed = refl;
}

-- As the state stays, whatever the two flags.
flagged :
    (s : Search) (deep dropped : Bool)
    → Grows 0 s (record s { depth_limited = deep; candidates_dropped = dropped })
flagged s deep dropped = record {
  asks = refl;
  asked = refl;
  paged = omega arith;
  mailed = λ h. h;
  bounded = λ h. h;
  weighed = refl;
}

pub then-Grows : {m n : ℕ} {s t u : Search} → Grows m s t → Grows n t u → Grows (m + n) s u
then-Grows {s = s} g h = record {
  asks = h.asks ∙ g.asks;
  asked = h.asked ∙ g.asked;
  paged = omega (arith, g.paged, h.paged);
  mailed = λ e. rw (g.asks) at (h.mailed (rw (g.asks) (g.mailed e)));
  bounded = λ b. h.bounded (g.bounded b);
  weighed = h.weighed ∙ g.weighed;
}

queued-Grows :
    (s : Search) (item : Target)
    → leb max_candidates (length s.seen) ≡ false
    → Grows 0 s (record s { seen = item.url ∷ s.seen; queue = s.queue ++ item ∷ [] })
queued-Grows s item room = record {
  asks = refl;
  asked = refl;
  paged = omega arith;
  mailed = λ h. h;
  bounded = λ h. ground arith;
  weighed = ground (arith, length-append s.queue (item ∷ []));
}

pub add-Grows : (s : Search) (item : Target) → Grows 0 s (add s item)
unfolding add
add-Grows s item = elim (Bool-cases (has_url s.seen item.url)) [
  | inl old ↦ simp old (stays s)
  | inr new ↦ simp new (elim (Bool-cases (ltb 2 item.depth)) [
    | inl deep ↦ simp deep (flagged s true s.candidates_dropped)
    | inr near ↦ simp near (elim (Bool-cases (leb max_candidates (length s.seen))) [
      | inl full ↦ simp full (flagged s s.depth_limited true)
      | inr room ↦ simp room (queued-Grows s item room)
    ])
  ])
]

add_all-Grows : (s : Search) (items : List Target) → Grows 0 s (add_all s items)
unfolding add_all
add_all-Grows s [] = stays s
add_all-Grows s (item ∷ items) = then-Grows (add-Grows s item) (add_all-Grows (add s item) items)

length-update_at :
    (emails : List Address) (n : ℕ) (f : Address → Address)
    → length (update_at emails n f) ≡ length emails
unfolding update_at
length-update_at [] n f = refl
length-update_at (a ∷ rest) zero f = refl
length-update_at (a ∷ rest) (suc n) f = ap suc (length-update_at rest n f)

pub warn-Grows : (s : Search) (message : Str) → Grows 0 s (warn s message)
unfolding warn
warn-Grows s message = elim (Bool-cases (any (λ w. str_eq w message) s.report.warnings)) [
  | inl old ↦ simp old (stays s)
  | inr new ↦ simp new (record {
    asks = refl;
    asked = refl;
    paged = omega arith;
    mailed = λ h. h;
    bounded = λ h. h;
    weighed = refl;
  })
]

add_source_at-Grows : (s : Search) (source : Source) (n : ℕ) → Grows 0 s (add_source_at s source n)
unfolding add_source_at
add_source_at-Grows s source n = record {
  asks = refl;
  asked = refl;
  paged = omega arith;
  mailed = λ h. rw (length-update_at s.report.emails n (add_source source)) h;
  bounded = λ h. h;
  weighed = refl;
}

-- The new address of record.
address-Grows :
    (s : Search) (address : Str)
    → leb s.request.max_emails (length s.report.emails) ≡ false
    → Grows 0 s (with_address s address)
address-Grows s address room = record {
  asks = refl;
  asked = refl;
  paged = omega arith;
  mailed = λ h.
      ground
        (arith, length-append s.report.emails (record { address = address; sources = [] } ∷ []));
  bounded = λ h. h;
  weighed = refl;
}

record_new-Grows :
    (s : Search) (address : Str) (source : Source) → Grows 0 s (record_new s address source)
unfolding record_new
record_new-Grows s address source =
    elim (Bool-cases (leb s.request.max_emails (length s.report.emails))) [
      | inl full ↦ simp full (warn-Grows s _)
      | inr room ↦
          simp room (then-Grows (address-Grows s address room) (add_source_at-Grows _ source _))
    ]

record_known-Grows :
    (s : Search) (address : Str) (source : Source) (n : Option ℕ)
    → Grows 0 s (record_known s address source n)
unfolding record_known
record_known-Grows s address source none = record_new-Grows s address source
record_known-Grows s address source (some n) = add_source_at-Grows s source n

record_all-Grows :
    (public_url : Str → Str) (s : Search) (matches : List Match) (base : Str)
    → Grows 0 s (record_all public_url s matches base)
unfolding record_all record_match
record_all-Grows public_url s [] base = stays s
record_all-Grows public_url s (found ∷ rest) base =
    then-Grows (record_known-Grows s found.address _ (get s.addresses found.address))
      (record_all-Grows public_url (record_match public_url s found base) rest base)

module _ {U : Type 0} (net : NetUrl U) (scope : U) (readers : Readers) where
  page-Grows : (s : Search) (result : Loaded) → Grows 1 s (keep_page net scope readers s result)
  unfolding keep_page
  page-Grows s result = record {
    asks = refl;
    asked = refl;
    paged = length-append s.report.pages _;
    mailed = λ h. h;
    bounded = λ h. h;
    weighed = refl;
  }

  failed-Grows :
      (s : Search) (result : Loaded) → Grows 1 s (consume_failed net scope readers s result)
  unfolding consume_failed
  failed-Grows s result = record {
    asks = refl;
    asked = refl;
    paged = length-append s.report.pages _;
    mailed = λ h. h;
    bounded = λ h. h;
    weighed = refl;
  }

  -- A result adds one page to the report, and none if it is a site map, whether or not it could be
  -- loaded. It brings neither the addresses of the report over the limit of the request, nor the
  -- candidate URLs over 1000, and with every target that it queues the room for more becomes
  -- smaller by one.
  pub consume-Grows :
      (s : Search) (result : Loaded)
      → Grows (pages_of result.target) s (consume net scope readers s result)
  unfolding consume consume_sitemap consume_page
  consume-Grows s result = elim (Bool-cases result.target.sitemap) [
    | inl map ↦ simp map (elim (Bool-cases (is_unusable net scope readers result)) [
      | inl bad ↦ simp bad (stays s)
      | inr good ↦ simp good (add_all-Grows s _)
    ])
    | inr page ↦ simp page (elim (Bool-cases (is_unusable net scope readers result)) [
      | inl bad ↦ simp bad (failed-Grows s result)
      | inr good ↦ simp good (
          then-Grows (page-Grows s result) (
            then-Grows
              (record_all-Grows readers.public_url (keep_page net scope readers s result) _ _)
              (add_all-Grows _ _)))
    ])
  ]
