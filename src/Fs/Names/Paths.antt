-- ===== src/Fs/Names/Paths.antt =====
-- `dir_namei` of fs/namei.c: the name at the end of a path.
use linux_0_11_notes.Prelude.{
  Bool-cases, List, [], ap, append-nil, append_assoc, arith, if-false, if-true, inl, inr, refl,
  some, subst, sym, ℕ, ◌++◌, ◌==◌, ◌∙◌, ◌∷◌, ◌≡◌, ◌≢◌, ◌⊎◌,
}
use linux_0_11_notes.Fs.Names.{Caller}
use linux_0_11_notes.Fs.Names.Walk.{base_name, dir_namei, get_dir}
use linux_0_11_notes.Fs.Store.{Store, bind_at, returns}

abbrev pub Plain : List ℕ → Type 0
Plain [] = Unit
Plain (c ∷ cs) = (c ≢ b'/') × Plain cs

-- A name that is the end of a path: it has no '/', and stands at the start or after one.
pub record IsBase (path base : List ℕ) : Type 0 where
  pub front : List ℕ
  pub split : front ++ base ≡ path
  pub plain : Plain base
  pub ends : (front ≡ []) ⊎ ((dirs : List ℕ) × (front ≡ dirs ++ b'/' ∷ []))

Plain-append : (xs ys : List ℕ) → Plain xs → Plain ys → Plain (xs ++ ys)
Plain-append [] ys p q = q
Plain-append (x ∷ xs) ys (n, p) q = (n, Plain-append xs ys p q)

base_name-IsBase :
    (cs seen front path base : List ℕ)
    → base ≡ seen ++ cs
    → Plain seen
    → front ++ base ≡ path
    → (front ≡ []) ⊎ ((dirs : List ℕ) × (front ≡ dirs ++ b'/' ∷ []))
    → IsBase path (base_name cs base)
unfolding base_name
base_name-IsBase [] seen front path base e p split ends = record {
  front = front;
  split = split;
  plain = subst Plain (sym (e ∙ append-nil seen)) p;
  ends = ends;
}
base_name-IsBase (c ∷ cs) seen front path base e p split ends = elim (Bool-cases (c == b'/')) [
  | inl slash ↦
      let c' : c ≡ b'/' = ground arith in
      let front' : List ℕ = (front ++ seen) ++ b'/' ∷ [] in
      let split' : front' ++ cs ≡ path =
        append_assoc (front ++ seen) (b'/' ∷ []) cs
        ∙ ap (λ (x : ℕ). (front ++ seen) ++ x ∷ cs) (sym c')
        ∙ append_assoc front seen (c ∷ cs)
        ∙ ap (λ (b : List ℕ). front ++ b) (sym e)
        ∙ split in
      subst (λ b. IsBase path (base_name cs b)) (sym (if-true _ _ _ slash))
        (base_name-IsBase cs [] front' path cs refl tt split' (inr (front ++ seen, refl)))
  | inr other ↦
      let n : c ≢ b'/' = ground arith in
      subst (λ b. IsBase path (base_name cs b)) (sym (if-false _ _ _ other))
        (base_name-IsBase cs (seen ++ c ∷ []) front path base
          (e ∙ sym (append_assoc seen (c ∷ []) cs)) (Plain-append seen (c ∷ []) p (n, tt)) split
          ends)
]

-- Where `get_dir` finds the directory of a path, `dir_namei` returns it with the end of the path: all
-- that follows the last '/', or the whole path if it has none.
pub dir_namei-IsBase :
    (me : Caller) (path : List ℕ) (s s' : Store) (i : ℕ)
    → get_dir me path s ≡ returns (some i) s'
    → (base : List ℕ) × (dir_namei me path s ≡ returns (some (i, base)) s') × IsBase path base
unfolding dir_namei
dir_namei-IsBase me path s s' i h = (
  base_name path path,
  bind_at (get_dir me path) _ s s' (some i) h,
  base_name-IsBase path [] [] path path refl tt refl (inl refl),
)
