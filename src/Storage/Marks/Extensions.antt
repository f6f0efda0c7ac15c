-- ===== src/Storage/Marks/Extensions.antt =====
-- The extension of the key of a file (pkg/chat/repo.go): what stands after its last dot.
use Prim.Native.Char.{code}
use Prim.Native.String.{String}
use nexus_chat.Base.{
  ◌≡◌, refl, sym, ◌∙◌, true, ◌⊎◌, inl, inr, List, [], ◌∷◌, ◌==◌, split, Lacks, Bool-cases, subst,
}
use mathlib.Core.Bool.{false≢true}
use nexus_chat.Storage.Marks.{last_part}

-- The text stands after a dot of the key.
abbrev pub IsAfterDot : String → String → Type 0
IsAfterDot e String.[] = ⊥
IsAfterDot e (String.◌∷◌ c s) = (((code c == 46) ≡ true) × (s ≡ e)) ⊎ IsAfterDot e s

-- The parts of a key are the key alone, or the last of them stands after its last dot.
abbrev pub Dotted : String → Type 0
Dotted s =
    (p : String) × ((q : String) × ((ps : List String) × ((split 46 s ≡ p ∷ q ∷ ps)
          × (IsAfterDot (last_part q ps) s × Lacks 46 (last_part q ps)))))

pub IsAfterDot-Lacks : (e s : String) → Lacks 46 s → IsAfterDot e s → ⊥
IsAfterDot-Lacks e String.[] l d = d
IsAfterDot-Lacks e (String.◌∷◌ c s) l (inl d) = false≢true (sym l.0 ∙ d.0)
IsAfterDot-Lacks e (String.◌∷◌ c s) l (inr d) = IsAfterDot-Lacks e s l.1 d

-- there is one last dot
pub IsAfterDot-same :
    (e f s : String) → IsAfterDot e s → Lacks 46 e → IsAfterDot f s → Lacks 46 f → e ≡ f
IsAfterDot-same e f String.[] d l g m = absurd d
IsAfterDot-same e f (String.◌∷◌ c s) (inl d) l (inl g) m = sym d.1 ∙ g.1
IsAfterDot-same e f (String.◌∷◌ c s) (inl d) l (inr g) m =
    absurd (IsAfterDot-Lacks f s (subst (Lacks 46) (sym d.1) l) g)
IsAfterDot-same e f (String.◌∷◌ c s) (inr d) l (inl g) m =
    absurd (IsAfterDot-Lacks e s (subst (Lacks 46) (sym g.1) m) d)
IsAfterDot-same e f (String.◌∷◌ c s) (inr d) l (inr g) m = IsAfterDot-same e f s d l g m

pub split-Dotted : (s : String) → ((split 46 s ≡ s ∷ []) × Lacks 46 s) ⊎ Dotted s
unfolding split last_part
split-Dotted String.[] = inl (refl, tt)
split-Dotted (String.◌∷◌ c s) = elim (Bool-cases (code c == 46)) [
  | inl e ↦ elim (split-Dotted s) [
    | inl (p, l) ↦ inr ("", (s, ([], (rw (e, p) refl, (inl (e, refl), l)))))
    | inr (p, (q, (ps, (x, (d, l))))) ↦ inr ("", (p, (q ∷ ps, (rw (e, x) refl, (inr d, l)))))
  ]
  | inr e ↦ elim (split-Dotted s) [
    | inl (p, l) ↦ inl (rw (e, p) refl, (e, l))
    | inr (p, (q, (ps, (x, (d, l))))) ↦
        inr (String.◌∷◌ c p, (q, (ps, (rw (e, x) refl, (inr d, l)))))
  ]
]
