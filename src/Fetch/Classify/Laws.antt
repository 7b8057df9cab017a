-- ===== src/Fetch/Classify/Laws.antt =====
-- What a verdict of Classify says of the document: pkg/fetch/classify.go.
use pagelode.Prelude.{
  ℕ, ◌≤◌, ◌<◌, Str, [], List, none, some, true, false, arith, ◌≡◌, ◌≢◌, ◌↔◌, ◌⊎◌, Option-cases, inl,
  inr, length, runes, str_eq, trim_space,
}
use pagelode.Fetch.Page.{Document, accept, needs_render, dead}
use pagelode.Fetch.Classify.{
  Inspector, View, is_html, is_patchright, first_match, first, normalized_text, challenge_signal,
  render_score, judge_score, judge_view, judge_html, judge_status, judge_plain, classify,
}

-- The number of runes that a rendered body shows.
abbrev pub visible_length : View → ℕ
visible_length v = length (runes (normalized_text v.body_text))

judge_score-ne-dead : (s : ℕ × List Str) (n : ℕ) → (judge_score s n).kind ≢ dead
unfolding judge_score
judge_score-ne-dead (score, reasons) n h = ground arith

judge_view-ne-dead : (i : Inspector) (d : Document) (v : View) → (judge_view i d v).kind ≢ dead
unfolding judge_view
judge_view-ne-dead i d v h =
    ground (arith, judge_score-ne-dead (render_score i v (visible_length v)) (visible_length v))

judge_html-ne-dead : (i : Inspector) (d : Document) → (judge_html i d).kind ≢ dead
unfolding judge_html
judge_html-ne-dead i d h = grind (arith, judge_view-ne-dead)

judge_status-ne-dead : (i : Inspector) (d : Document) → (judge_status i d).kind ≢ dead
unfolding judge_status
judge_status-ne-dead i d h = ground (arith, judge_html-ne-dead i d)

judge_plain-ne-dead : (d : Document) → (judge_plain d).kind ≢ dead
unfolding judge_plain
judge_plain-ne-dead d h = ground arith

-- A document is dead exactly when its status is 404 or 410, whatever else it holds.
pub classify-dead_iff :
    (i : Inspector) (d : Document)
    → ((classify i d).kind ≡ dead) ↔ ((d.status_code ≡ 404) ⊎ (d.status_code ≡ 410))
unfolding classify
classify-dead_iff i d =
    (λ h. ground (arith, judge_status-ne-dead i d, judge_plain-ne-dead d), λ h. ground arith)

-- What an accepted HTML page satisfies.
pub record IsUsable (i : Inspector) (d : Document) : Type 0 where
  pub unchallenged : challenge_signal i d ≡ none
  pub status : d.status_code < 400
  pub unblocked : first_match i.blocks (first d.html 500000) ≡ none
  pub page : str_eq (trim_space d.html) [] ≡ false
  pub view : View
  pub parsed : i.parse_html d.html ≡ some view
  pub body : view.has_body ≡ true
  pub calm : visible_length view < 2500 → first_match i.short_blocks (first d.html 30000) ≡ none
  pub shown :
      (is_patchright d.provider ≡ true) ⊎ ((render_score i view (visible_length view)).0 < 10)

judge_score-accept : (s : ℕ × List Str) (n : ℕ) → (judge_score s n).kind ≡ accept → s.0 < 10
unfolding judge_score
judge_score-accept (score, reasons) n h = ground arith

module _ (i : Inspector) (d : Document) where
  judge_view-accept :
      (v : View)
      → (judge_view i d v).kind ≡ accept
      → (visible_length v < 2500 → first_match i.short_blocks (first d.html 30000) ≡ none)
        × ((is_patchright d.provider ≡ true) ⊎ ((render_score i v (visible_length v)).0 < 10))
  unfolding judge_view
  judge_view-accept v h = (
    λ small. ground arith,
    ground (arith, judge_score-accept (render_score i v (visible_length v)) (visible_length v)),
  )

  judge_html-accept :
      challenge_signal i d ≡ none
      → d.status_code < 400
      → first_match i.blocks (first d.html 500000) ≡ none
      → (judge_html i d).kind ≡ accept
      → IsUsable i d
  unfolding judge_html
  judge_html-accept c s b h = elim (Option-cases (i.parse_html d.html)) [
    | inl failed ↦ absurd (ground arith)
    | inr (v, parsed) ↦
        let (calm, shown) = judge_view-accept v (ground arith) in
        record {
          unchallenged = c;
          status = s;
          unblocked = b;
          page = ground arith;
          view = v;
          parsed = parsed;
          body = ground arith;
          calm = calm;
          shown = shown;
        }
  ]

  judge_status-accept :
      (judge_status i d).kind ≡ accept
      → (d.status_code < 400)
        × (first_match i.blocks (first d.html 500000) ≡ none)
        × ((judge_html i d).kind ≡ accept)
  unfolding judge_status
  judge_status-accept h = ground arith

  classify-accept_parts :
      (classify i d).kind ≡ accept
      → is_html d.content_type ≡ true
      → (challenge_signal i d ≡ none) × ((judge_status i d).kind ≡ accept)
  unfolding classify
  classify-accept_parts h t = ground arith

-- An accepted HTML document shows no challenge and no blocking signature, has a status below 400
-- and a body, and was rendered by the browser or scores below 10.
pub classify-IsUsable :
    (i : Inspector) (d : Document)
    → (classify i d).kind ≡ accept
    → is_html d.content_type ≡ true
    → IsUsable i d
classify-IsUsable i d h t =
    let (c, k) = classify-accept_parts i d h t in
    let (s, b, j) = judge_status-accept i d k in judge_html-accept i d c s b j

judge_view-needs_render :
    (i : Inspector) (d : Document) (v : View)
    → (judge_view i d v).kind ≡ needs_render
    → 10 ≤ (judge_view i d v).render_score
unfolding judge_view judge_score
judge_view-needs_render i d v h = ground arith

judge_html-needs_render :
    (i : Inspector) (d : Document)
    → (judge_html i d).kind ≡ needs_render
    → 10 ≤ (judge_html i d).render_score
unfolding judge_html
judge_html-needs_render i d h = grind (arith, judge_view-needs_render)

-- A document that needs rendering is HTML with a status below 400, and its score is at least 10.
pub classify-needs_render :
    (i : Inspector) (d : Document)
    → (classify i d).kind ≡ needs_render
    → (is_html d.content_type ≡ true) × (d.status_code < 400) × (10 ≤ (classify i d).render_score)
unfolding classify judge_status judge_plain
classify-needs_render i d h = ground (arith, judge_html-needs_render i d)
