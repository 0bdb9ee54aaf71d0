-- ===== src/Network/Walks.antt =====
-- companion/tpf2mp/transport_network.py, lines 98 to 126: the search as a relation between visits.
use mathlib.Core.List.{Memᴰ}
use mathlib.Core.List.Memᴰ
use tpf2mp.Network.Edges.{Edge}
use tpf2mp.Network.Paths.{
  Visit, Found, may_follow, follow, edges_at, acceptance, found_here, along, visit,
}
use tpf2mp.Base.{
  ℕ, zero, suc, ◌≡◌, refl, sym, ◌∙◌, Bool, String, true, false, inl, inr, Option, none, some, List,
  [], ◌∷◌, ◌++◌,
}
use tpf2mp.Base.Dict.{Dict}
use mathlib.Core.Path.{subst}

module _ (by_node : Dict (List Edge)) (cargo_type : Option String) where
  -- At most so many legs lead from one visit to another.
  pub data Walk : ℕ → Visit → Visit → Type 0 where
    stay : {n : ℕ} {v : Visit} → Walk n v v
    leg :
        {n : ℕ} {v w : Visit} (e : Edge)
        → Memᴰ e (edges_at by_node v.node)
        → may_follow cargo_type v e ≡ true
        → Walk n (follow cargo_type v e) w
        → Walk (suc n) v w

  module _ {A : Type 0} (accept : String → List Edge → Option A) where
    -- What a walk from a visit finds.
    pub record Finds (n : ℕ) (v : Visit) (f : Found A) : Type 0 where
      pub last : Visit
      pub walk : Walk n v last
      pub accepted : acceptance accept last.node last.path ≡ some f.accepted
      pub found : f ≡ record {
        edges = last.path;
        accepted = f.accepted;
        cost_seconds = last.cost;
        capacity = last.capacity;
      }

    here-Finds :
        (n : ℕ) (v : Visit) (f : Found A) (o : Option A)
        → acceptance accept v.node v.path ≡ o
        → Memᴰ f (found_here accept v o)
        → Finds n v f
    here-Finds n v f none e m = absurd (Memᴰ.not-nil m)
    here-Finds n v f (some a) e m = elim (Memᴰ.cases_cons m) [
      | inl same ↦ record { last = v; walk = stay; accepted = rw same e; found = rw same refl }
      | inr m' ↦ absurd (Memᴰ.not-nil m')
    ]

    leg-Finds :
        (n : ℕ) (v : Visit) (f : Found A) (e : Edge)
        → Memᴰ e (edges_at by_node v.node)
        → may_follow cargo_type v e ≡ true
        → Finds n (follow cargo_type v e) f
        → Finds (suc n) v f
    leg-Finds n v f e m ok h = record {
      last = h.last;
      walk = leg e m ok h.walk;
      accepted = h.accepted;
      found = h.found;
    }

    -- The two branches of the loop's test on an edge.
    abbrev branch : (Visit → List (Found A)) → Visit → Edge → List (Found A) → Bool → List (Found A)
    branch go v e rest true = go (follow cargo_type v e) ++ rest
    branch go v e rest false = rest

    along-Finds :
        (n : ℕ) (go : Visit → List (Found A)) (v : Visit) (f : Found A) (edges : List Edge)
        → ((w : Visit) → Memᴰ f (go w) → Finds n w f)
        → ((e : Edge) → Memᴰ e edges → Memᴰ e (edges_at by_node v.node))
        → Memᴰ f (along accept go cargo_type v edges)
        → Finds (suc n) v f
    along-Finds n go v f [] h k m = absurd (Memᴰ.not-nil m)
    along-Finds n go v f (e ∷ edges) h k m =
        split (may_follow cargo_type v e)
          (along-Finds n go v f edges h (λ d m'. k d (Memᴰ.tail m'))) refl m
      where
        split :
            (b : Bool)
            → (Memᴰ f (along accept go cargo_type v edges) → Finds (suc n) v f)
            → may_follow cargo_type v e ≡ b
            → Memᴰ f (branch go v e (along accept go cargo_type v edges) b)
            → Finds (suc n) v f
        split false rest no_leg m' = rest m'
        split true rest ok m' = elim (Memᴰ.append_cases (go (follow cargo_type v e)) m') [
          | inl here ↦ leg-Finds n v f e (k e (Memᴰ.head refl)) ok (h (follow cargo_type v e) here)
          | inr later ↦ rest later
        ]

    pub visit-Finds :
        (n : ℕ) (v : Visit) (f : Found A)
        → Memᴰ f (visit accept n by_node cargo_type v)
        → Finds n v f
    unfolding visit
    visit-Finds zero v f m = here-Finds zero v f (acceptance accept v.node v.path) refl m
    visit-Finds (suc n) v f m =
        elim (Memᴰ.append_cases (found_here accept v (acceptance accept v.node v.path)) m) [
          | inl here ↦ here-Finds (suc n) v f (acceptance accept v.node v.path) refl here
          | inr later ↦
              along-Finds n (visit accept n by_node cargo_type) v f (edges_at by_node v.node)
                (λ w. visit-Finds n w f) (λ e m'. m') later
        ]

    along-Mem :
        (go : Visit → List (Found A)) (v : Visit) (f : Found A) (edges : List Edge) (e : Edge)
        → Memᴰ e edges
        → may_follow cargo_type v e ≡ true
        → Memᴰ f (go (follow cargo_type v e))
        → Memᴰ f (along accept go cargo_type v edges)
    along-Mem go v f [] e m ok h = absurd (Memᴰ.not-nil m)
    along-Mem go v f (d ∷ edges) e m ok h = elim (Memᴰ.cases_cons m) [
      | inl same ↦
          let first : may_follow cargo_type v d ≡ true =
            subst (λ x. may_follow cargo_type v x ≡ true) same ok in
          let found : Memᴰ f (go (follow cargo_type v d)) =
            subst (λ x. Memᴰ f (go (follow cargo_type v x))) same h in
          subst (λ b. Memᴰ f (branch go v d (along accept go cargo_type v edges) b)) (sym first)
            (Memᴰ.append_left (along accept go cargo_type v edges) found)
      | inr m' ↦ later (may_follow cargo_type v d) (along-Mem go v f edges e m' ok h)
    ]
      where
        later :
            (b : Bool)
            → Memᴰ f (along accept go cargo_type v edges)
            → Memᴰ f (branch go v d (along accept go cargo_type v edges) b)
        later true m' = Memᴰ.append_right (go (follow cargo_type v d)) m'
        later false m' = m'

    here-Mem :
        (v : Visit) (f : Found A) (o : Option A)
        → o ≡ some f.accepted
        → f ≡ record {
          edges = v.path;
          accepted = f.accepted;
          cost_seconds = v.cost;
          capacity = v.capacity;
        }
        → Memᴰ f (found_here accept v o)
    here-Mem v f none e found = absurd (cc)
    here-Mem v f (some a) e found =
        let same : f.accepted ≡ a = cc in Memᴰ.head (found ∙ rw same refl)

    visit-Mem :
        (n : ℕ) (v w : Visit) (f : Found A)
        → Walk n v w
        → acceptance accept w.node w.path ≡ some f.accepted
        → f ≡ record {
          edges = w.path;
          accepted = f.accepted;
          cost_seconds = w.cost;
          capacity = w.capacity;
        }
        → Memᴰ f (visit accept n by_node cargo_type v)
    unfolding visit
    visit-Mem zero v w f stay ok found = here-Mem v f (acceptance accept v.node v.path) ok found
    visit-Mem (suc n) v w f stay ok found =
        Memᴰ.append_left
          (along accept (visit accept n by_node cargo_type) cargo_type v (edges_at by_node v.node))
          (here-Mem v f (acceptance accept v.node v.path) ok found)
    visit-Mem (suc n) v w f (leg e m may h) ok found =
        Memᴰ.append_right (found_here accept v (acceptance accept v.node v.path)) (
          along-Mem (visit accept n by_node cargo_type) v f (edges_at by_node v.node) e m may
            (visit-Mem n (follow cargo_type v e) w f h ok found))

    -- The search finds what the walks find.
    pub visit-Mem_of :
        (n : ℕ) (v : Visit) (f : Found A)
        → Finds n v f
        → Memᴰ f (visit accept n by_node cargo_type v)
    visit-Mem_of n v f h = visit-Mem n v h.last f h.walk h.accepted h.found
