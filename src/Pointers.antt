-- ===== src/Pointers.antt =====
-- Objects that own what they point to: flags for the locks of the tunnel, contexts for the sessions of AES.
use vpverk.Base.{ℕ, ◌≡◌, ◌≢◌, sym, ap, ◌∙◌, true, false, ◌⊎◌, inl, inr, Option, none, some}
use native.Mathlib.Decide.{ℕ_discrete}
use vpverk.Schedule.Places.{moved, moved_here, moved_there, moved_from}

-- `o.l = nullptr` after the target got the pointer of `o`
unfoldable pub pass_on : (i o : ℕ) → (ℕ → Option ℕ) → ℕ → Option ℕ
pass_on i o l = moved (moved l i (l o)) o none

pub has_no_pointer : {f : ℕ} → none ≢ some f
has_no_pointer e = cc

pub passed_from :
    (i o : ℕ) (l : ℕ → Option ℕ) (k f : ℕ)
    → pass_on i o l k ≡ some f
    → (o ≢ k) × (((i ≡ k) × (l o ≡ some f)) ⊎ ((i ≢ k) × (l k ≡ some f)))
unfolding pass_on
passed_from i o l k f e = elim (moved_from (moved l i (l o)) o none k (some f) e) [
  | inl (same, q) ↦ absurd (has_no_pointer q)
  | inr (other, q) ↦ (other, moved_from l i (l o) k (some f) q)
]

pub some_inj : {f g : ℕ} → some f ≡ some g → f ≡ g
some_inj e = cc

pub clash : true ≢ false
clash e = cc

-- Two objects that have the same flag after the change of `i`
pub sole_after :
    (l : ℕ → Option ℕ) (i a b g f : ℕ)
    → ((i j f : ℕ) → l i ≡ some f → l j ≡ some f → i ≡ j)
    → ((k : ℕ) → l k ≢ some f)
    → moved l i (some f) a ≡ some g
    → moved l i (some f) b ≡ some g
    → a ≡ b
sole_after l i a b g f sole free p q =
    let here : (k c : ℕ) → some f ≡ some g → l k ≢ some g = λ k c e w. free k (w ∙ sym e) in
    elim (moved_from l i (some f) a (some g) p) [
      | inl (x, u) ↦ elim (moved_from l i (some f) b (some g) q) [
        | inl (y, v) ↦ sym x ∙ y
        | inr (y, v) ↦ absurd (here b b u v)
      ]
      | inr (x, u) ↦ elim (moved_from l i (some f) b (some g) q) [
        | inl (y, v) ↦ absurd (here a a v u)
        | inr (y, v) ↦ sole a b g u v
      ]
    ]

pub passed_sole :
    (l : ℕ → Option ℕ) (i o a b f : ℕ)
    → ((i j f : ℕ) → l i ≡ some f → l j ≡ some f → i ≡ j)
    → pass_on i o l a ≡ some f
    → pass_on i o l b ≡ some f
    → a ≡ b
passed_sole l i o a b f sole p q =
    let (na, ca) = passed_from i o l a f p in
    let (nb, cb) = passed_from i o l b f q in
    elim ca [
      | inl (x, u) ↦ elim cb [ inl (y, v) ↦ sym x ∙ y | inr (y, v) ↦ absurd (nb (sole o b f u v)) ]
      | inr (x, u) ↦ elim cb [
        | inl (y, v) ↦ absurd (na (sole o a f v u))
        | inr (y, v) ↦ sole a b f u v
      ]
    ]

-- Who has no pointer is not who has a flag.
pub apart : (l : ℕ → Option ℕ) (i k f : ℕ) → l i ≡ none → l k ≡ some f → i ≢ k
apart l i k f e q same = has_no_pointer (sym e ∙ ap l same ∙ q)

pub passed_keeps :
    (l : ℕ → Option ℕ) (i o k f : ℕ)
    → l i ≡ none
    → o ≢ i
    → l k ≡ some f
    → (j : ℕ) × (pass_on i o l j ≡ some f)
unfolding pass_on
passed_keeps l i o k f e ne q = elim (ℕ_discrete o k) [
  | yes same ↦ (i, moved_there (moved l i (l o)) o i none ne ∙ moved_here l i (l o) ∙ ap l same ∙ q)
  | no other ↦ (
    k,
    moved_there (moved l i (l o)) o k none other ∙ moved_there l i k (l o) (apart l i k f e q) ∙ q,
  )
]

-- The pointers of `i` and `o` are swapped.
unfoldable pub swap_pointers : (i o : ℕ) → (ℕ → Option ℕ) → ℕ → Option ℕ
swap_pointers i o l = moved (moved l i (l o)) o (l i)

pub swapped_from :
    (i o : ℕ) (l : ℕ → Option ℕ) (k f : ℕ)
    → swap_pointers i o l k ≡ some f
    → ((o ≡ k) × (l i ≡ some f))
      ⊎ (((i ≡ k) × (l o ≡ some f)) ⊎ ((o ≢ k) × ((i ≢ k) × (l k ≡ some f))))
unfolding swap_pointers
swapped_from i o l k f e = elim (moved_from (moved l i (l o)) o (l i) k (some f) e) [
  | inl (same, q) ↦ inl (same, q)
  | inr (other, q) ↦ elim (moved_from l i (l o) k (some f) q) [
    | inl (x, u) ↦ inr (inl (x, u))
    | inr (x, u) ↦ inr (inr (other, (x, u)))
  ]
]

pub swapped_sole :
    (l : ℕ → Option ℕ) (i o a b f : ℕ)
    → ((i j f : ℕ) → l i ≡ some f → l j ≡ some f → i ≡ j)
    → swap_pointers i o l a ≡ some f
    → swap_pointers i o l b ≡ some f
    → a ≡ b
swapped_sole l i o a b f sole p q = elim (swapped_from i o l a f p) [
  | inl (x, u) ↦ elim (swapped_from i o l b f q) [
    | inl (y, v) ↦ sym x ∙ y
    | inr w ↦ elim w [
      | inl (y, v) ↦ sym x ∙ sym (sole i o f u v) ∙ y
      | inr (out, (ne, v)) ↦ absurd (ne (sole i b f u v))
    ]
  ]
  | inr z ↦ elim z [
    | inl (x, u) ↦ elim (swapped_from i o l b f q) [
      | inl (y, v) ↦ sym x ∙ sole i o f v u ∙ y
      | inr w ↦ elim w [
        | inl (y, v) ↦ sym x ∙ y
        | inr (out, (ne, v)) ↦ absurd (out (sole o b f u v))
      ]
    ]
    | inr (out, (ne, u)) ↦ elim (swapped_from i o l b f q) [
      | inl (y, v) ↦ absurd (ne (sole i a f v u))
      | inr w ↦ elim w [
        | inl (y, v) ↦ absurd (out (sole o a f v u))
        | inr (out2, (ne2, v)) ↦ sole a b f u v
      ]
    ]
  ]
]

pub swapped_keeps :
    (l : ℕ → Option ℕ) (i o k f : ℕ) → l k ≡ some f → (j : ℕ) × (swap_pointers i o l j ≡ some f)
unfolding swap_pointers
swapped_keeps l i o k f q = elim (ℕ_discrete o k) [
  | yes same ↦ elim (ℕ_discrete o i) [
    | yes one ↦ (o, moved_here (moved l i (l o)) o (l i) ∙ ap l (sym one ∙ same) ∙ q)
    | no two ↦
        (i, moved_there (moved l i (l o)) o i (l i) two ∙ moved_here l i (l o) ∙ ap l same ∙ q)
  ]
  | no other ↦ elim (ℕ_discrete i k) [
    | yes same ↦ (o, moved_here (moved l i (l o)) o (l i) ∙ ap l same ∙ q)
    | no third ↦
        (k, moved_there (moved l i (l o)) o k (l i) other ∙ moved_there l i k (l o) third ∙ q)
  ]
]
