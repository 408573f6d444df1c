-- ===== src/Coroutine/Cleanup.antt =====
-- inc/coroutine.hpp: `promise_type::install` and `promise_type::cleanup`. A handler is a number, and
-- `installs` what each handler installs when it is called.
use hermesconcurrencyengine.Common.{
  ℕ, zero, suc, ◌≤◌, Option, none, some, List, [], ◌∷◌, ◌++◌, append_assoc, append-nil, ◌≡◌, refl,
  sym, ap, ◌∙◌, length, arith,
}

-- `cleanup_list_`, its head first.
unfoldable pub install : List ℕ → ℕ → List ℕ
install cleanup_list co = co ∷ cleanup_list

unfoldable pub install_all : List ℕ → List ℕ → List ℕ
install_all cleanup_list [] = cleanup_list
install_all cleanup_list (co ∷ rest) = install_all (install cleanup_list co) rest

-- `cleanup_list_ = cleanup_list_->next`, after the call: the head is the one that the call left.
abbrev next : List ℕ → List ℕ
next [] = []
next (old ∷ rest) = rest

module _ (installs : ℕ → List ℕ) where
  -- The handlers called, in order, or `none` where the loop has not ended.
  unfoldable pub cleanup : ℕ → List ℕ → Option (List ℕ)
  unfolding install_all
  cleanup fuel [] = some []
  cleanup zero (co ∷ rest) = none
  cleanup (suc fuel) (co ∷ rest) =
      let later = cleanup fuel (next (install_all (co ∷ rest) (installs co))) in
      elim later [ none ↦ none | some called ↦ some (co ∷ called) ]

abbrev pub reverse : List ℕ → List ℕ
reverse [] = []
reverse (x ∷ xs) = reverse xs ++ x ∷ []

install_all-reverse : (hs done : List ℕ) → install_all done hs ≡ reverse hs ++ done
unfolding install_all install
install_all-reverse [] done = refl
install_all-reverse (h ∷ hs) done =
    install_all-reverse hs (h ∷ done) ∙ sym (append_assoc (reverse hs) (h ∷ []) done)

module _ (installs : ℕ → List ℕ) where
  cleanup-quiet :
      (hs : List ℕ) (fuel : ℕ)
      → ((h : ℕ) → installs h ≡ [])
      → length hs ≤ fuel
      → cleanup installs fuel hs ≡ some hs
  unfolding cleanup install_all
  cleanup-quiet [] fuel quiet l = refl
  cleanup-quiet (h ∷ hs) zero quiet l = absurd (omega arith)
  cleanup-quiet (h ∷ hs) (suc fuel) quiet l =
      rw (cleanup, quiet h, cleanup-quiet hs fuel quiet (omega arith)) refl

  -- If the handlers install no others, `cleanup` calls those that were installed, each once, the
  -- last one first, and ends.
  pub cleanup_reversed :
      (hs : List ℕ) (fuel : ℕ)
      → ((h : ℕ) → installs h ≡ [])
      → length (install_all [] hs) ≤ fuel
      → cleanup installs fuel (install_all [] hs) ≡ some (reverse hs)
  cleanup_reversed hs fuel quiet l =
      cleanup-quiet (install_all [] hs) fuel quiet l
      ∙ ap some (install_all-reverse hs [] ∙ append-nil (reverse hs))

  -- If the first handler installs another one whenever it is called, then `cleanup` has not ended
  -- after any number of calls.
  pub installing_handler :
      (co other : ℕ) (rest : List ℕ) (fuel : ℕ)
      → installs co ≡ other ∷ []
      → cleanup installs fuel (co ∷ rest) ≡ none
  unfolding cleanup install_all install
  installing_handler co other rest zero e = refl
  installing_handler co other rest (suc fuel) e =
      rw (cleanup, e, installing_handler co other rest fuel e) refl
