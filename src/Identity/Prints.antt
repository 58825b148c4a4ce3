-- ===== src/Identity/Prints.antt =====
-- internal/disc/disc.go: that a fingerprint is that of what is on a disc, in whatever order.
use hellbox.Base.{
  ℕ, suc, ◌≡◌, refl, ap, ◌∙◌, List, [], ◌∷◌, ◌++◌, arith, length, Text, Unicode, trim_space,
  decimal, insert_by, sort_by,
}
use mathlib.Core.List.{Permᴰ}
use hellbox.Catalog.{Title}
use hellbox.Identity.{entries, entry_before, entries_text, fingerprint_text, compute_fingerprint}

abbrev sorted : List Title → List (ℕ × ℕ)
sorted ts = sort_by entry_before (entries ts)

insert_comm :
    (x y : ℕ × ℕ) (zs : List (ℕ × ℕ))
    → insert_by entry_before x (insert_by entry_before y zs)
      ≡ insert_by entry_before y (insert_by entry_before x zs)
unfolding insert_by
insert_comm (a, b) (c, d) [] = ground arith
insert_comm (a, b) (c, d) ((e, f) ∷ zs) = ground (arith, insert_comm (a, b) (c, d) zs)

sorted-perm : {ts us : List Title} → Permᴰ ts us → sorted ts ≡ sorted us
unfolding sort_by
sorted-perm Permᴰ.nil = refl
sorted-perm (Permᴰ.cons {l₁ = l} {l₂ = m} e d) =
    ap (λ (t : Title). insert_by entry_before (t.duration_secs, t.size_bytes) (sorted l)) e
    ∙ ap (insert_by entry_before _) (sorted-perm d)
sorted-perm (Permᴰ.swap {a = a} {b = b} {a' = a'} {l = l} e f) =
    insert_comm (a.duration_secs, a.size_bytes) (b.duration_secs, b.size_bytes) (sorted l)
    ∙ ap
        (λ (t : Title).
          insert_by entry_before (t.duration_secs, t.size_bytes)
            (insert_by entry_before (a.duration_secs, a.size_bytes) (sorted l)))
        f
    ∙ ap
        (λ (t : Title).
          insert_by entry_before (a'.duration_secs, a'.size_bytes)
            (insert_by entry_before (t.duration_secs, t.size_bytes) (sorted l)))
        e
sorted-perm (Permᴰ.trans d f) = sorted-perm d ∙ sorted-perm f

length-perm : {ts us : List Title} → Permᴰ ts us → length ts ≡ length us
length-perm Permᴰ.nil = refl
length-perm (Permᴰ.cons e d) = ap suc (length-perm d)
length-perm (Permᴰ.swap e f) = refl
length-perm (Permᴰ.trans d f) = length-perm d ∙ length-perm f

-- The fingerprint of a disc does not depend on the order in which its titles are enumerated.
pub fingerprint_perm :
    (hash : Text → Text) (u : Unicode) (label : Text) (ts us : List Title)
    → Permᴰ ts us
    → compute_fingerprint hash u label ts ≡ compute_fingerprint hash u label us
unfolding compute_fingerprint fingerprint_text
fingerprint_perm hash u label ts us d =
    ap
      (λ (x : ℕ × List (ℕ × ℕ)).
        hash (trim_space u label ++ (0 ∷ (decimal x.0 ++ (0 ∷ entries_text x.1)))))
      (λ i. (length-perm d i, sorted-perm d i))
