-- ===== src/Selector/Best/Maximum.antt =====
-- No node that can be a parent has a higher score than the one that `Best` of src/selector.rs
-- takes.
use rig_veh.Prelude.{
  true, false, List, [], ◌∷◌, Option, none, some, ok, err, ◌≡◌, refl, ◌⊎◌, inl, inr, any,
  Bool-cases, Option-cases, ap, sym, ◌∙◌, text,
}
use mathlib.Core.Option.{some-injective}
use rig_veh.Prelude.Member.{In, In-cons}
use rig_veh.Host.{Env, Json, IsScoreOrder}
use rig_veh.Json.{null, bool, number, string, array, object, get}
use rig_veh.Node.{AgentNode}
use rig_veh.Evaluator.{recorded_score, as_f64}
use rig_veh.Selector.{no_parents, score_of, best_of, best}
use rig_veh.Selector.Best.{
  Scored, scored, skips, starts, keeps, replaces, best_of-cons, best_of-nil, best_of-none,
}

module _ ⦃e : Env⦄ (order : IsScoreOrder) where
  open order use {IsNumber}

  as_f64-IsNumber : (v : Json) (x : e.F64) → as_f64 v ≡ some x → IsNumber x
  unfolding as_f64
  as_f64-IsNumber null x h = cc h
  as_f64-IsNumber (bool b) x h = cc h
  as_f64-IsNumber (number n) x h = order.read_IsNumber n x h
  as_f64-IsNumber (string s) x h = cc h
  as_f64-IsNumber (array v) x h = cc h
  as_f64-IsNumber (object v) x h = cc h

  recorded_score-IsNumber :
      (results : Option Json) (x : e.F64) → recorded_score results ≡ some x → IsNumber x
  unfolding recorded_score
  recorded_score-IsNumber none x h = cc h
  recorded_score-IsNumber (some v) x h = elim (Option-cases (get v (text "score"))) [
    | inl p ↦ cc (rw (p, recorded_score) at h)
    | inr (w, p) ↦ as_f64-IsNumber w x (rw (p, recorded_score) at h)
  ]

  -- Scores are read from JSON, so none is NaN.
  pub score_of-IsNumber : (n : AgentNode) → IsNumber (score_of n)
  unfolding score_of
  score_of-IsNumber n = elim (Option-cases (recorded_score n.eval_results)) [
    | inl p ↦ rw p order.zero_IsNumber
    | inr (x, p) ↦ rw p (recorded_score-IsNumber n.eval_results x p)
  ]

  -- The score of the winner bounds those before it.
  record Tops (x : Scored) (nodes : List AgentNode) (y : Scored) : Type 0 where
    pub number : IsNumber y.0
    pub above : e.f64_le x.0 y.0 ≡ true
    pub all :
        (m : AgentNode) → In m nodes → m.valid_parent ≡ true → e.f64_le (score_of m) y.0 ≡ true

  best_of-Tops :
      (x : Scored) (nodes : List AgentNode) (y : Scored)
      → IsNumber x.0
      → best_of (some x) nodes ≡ some y
      → Tops x nodes y
  best_of-Tops x [] y hx h =
      let same : x ≡ y = some-injective _ _ (sym (best_of-nil (some x)) ∙ h) in
      rw (← same) (record { number = hx; above = order.le_refl x.0 hx; all = λ m k t. elim k [ ] })
  best_of-Tops x (n ∷ nodes) y hx h = elim (Bool-cases (e.f64_le (score_of n) x.0)) [
    | inl u ↦
        let r =
          best_of-Tops x nodes y hx
            (sym (best_of-cons (some x) (some x) n nodes (keeps x n u)) ∙ h) in
        record {
          number = r.number;
          above = r.above;
          all = λ m k t. elim (In-cons k) [
            | inl q ↦
                rw q
                  (order.le_trans (score_of n) x.0 y.0 (score_of-IsNumber n) hx r.number u r.above)
            | inr l ↦ r.all m l t
          ];
        }
    | inr u ↦ elim (Bool-cases n.valid_parent) [
      | inr f ↦
          let r =
            best_of-Tops x nodes y hx
              (sym (best_of-cons (some x) (some x) n nodes (skips (some x) n f)) ∙ h) in
          record {
            number = r.number;
            above = r.above;
            all = λ m k t. elim (In-cons k) [
              | inl q ↦ cc (f, t, ap (λ a. a.valid_parent) q)
              | inr l ↦ r.all m l t
            ];
          }
      | inl v ↦
          let r =
            best_of-Tops (scored n) nodes y (score_of-IsNumber n)
              (sym (best_of-cons (some x) (some (scored n)) n nodes (replaces x n v u)) ∙ h) in
          record {
            number = r.number;
            above =
                order.le_trans x.0 (score_of n) y.0 hx (score_of-IsNumber n) r.number
                  (order.le_total (score_of n) x.0 (score_of-IsNumber n) hx u) r.above;
            all = λ m k t. elim (In-cons k) [ inl q ↦ rw q r.above | inr l ↦ r.all m l t ];
          }
    ]
  ]

  best_of-tops :
      (nodes : List AgentNode) (y : Scored)
      → best_of none nodes ≡ some y
      → (m : AgentNode) → In m nodes
      → m.valid_parent ≡ true
      → e.f64_le (score_of m) y.0 ≡ true
  best_of-tops [] y h m k t = elim k [ ]
  best_of-tops (n ∷ nodes) y h m k t = elim (Bool-cases n.valid_parent) [
    | inr f ↦
        let h' = sym (best_of-cons none none n nodes (skips none n f)) ∙ h in
        elim (In-cons k) [
          | inl q ↦ cc (f, t, ap (λ a. a.valid_parent) q)
          | inr l ↦ best_of-tops nodes y h' m l t
        ]
    | inl v ↦
        let r =
          best_of-Tops (scored n) nodes y (score_of-IsNumber n)
            (sym (best_of-cons none (some (scored n)) n nodes (starts n v)) ∙ h) in
        elim (In-cons k) [ inl q ↦ rw q r.above | inr l ↦ r.all m l t ]
  ]

  -- On scores that compare as finite numbers do, `Best` fails only where no node can be a
  -- parent; else it returns a node that can, and no node that can has a higher score.
  pub best-IsMax :
      (nodes : List AgentNode)
      → ((any (λ n. n.valid_parent) nodes ≡ false) × (best nodes ≡ err no_parents))
        ⊎ ((n : AgentNode) × In n nodes
            × (n.valid_parent ≡ true)
            × (best nodes ≡ ok n.agent_id)
            × ((m : AgentNode)
                → In m nodes
                → m.valid_parent ≡ true
                → e.f64_le (score_of m) (score_of n) ≡ true))
  unfolding best
  best-IsMax nodes = elim (best_of-none nodes) [
    | inl (q, p) ↦ inl (q, rw p refl)
    | inr (n, k, t, p) ↦ inr (n, k, t, rw p refl, best_of-tops nodes (scored n) p)
  ]
