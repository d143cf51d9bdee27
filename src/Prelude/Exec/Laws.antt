-- ===== src/Prelude/Exec/Laws.antt =====
-- Rules to prove what code with a state and exceptions does, one step at a time.
use mathlib.Core.Path.{ap, ◌≡◌, refl, ◌∙◌}
use document_feeder.Prelude.Exec.{Outcome, ok, raise, Exec, continue, handled, try_except, ◌>>=◌}

module _ {S E : Type 0} where
  -- what holds of the result and the state when nothing is raised
  abbrev pub Ensures : {A : Type 0} → (A → S → Type 0) → Exec S E A → S → Type 0
  Ensures {A} Q m s = (a : A) → (m s).0 ≡ ok a → Q a (m s).1

  -- what holds of every exception that is raised
  abbrev pub Raises : {A : Type 0} → (E → Type 0) → Exec S E A → S → Type 0
  Raises R m s = (e : E) → (m s).0 ≡ raise e → R e

  -- a part of the state that is as before, raised or not
  abbrev pub Keeps : {A B : Type 0} → (S → B) → Exec S E A → Type 0
  Keeps part m = (s : S) → part (m s).1 ≡ part s

  -- an invariant of the state, raised or not
  abbrev pub Preserves : {A : Type 0} → (S → Type 0) → Exec S E A → Type 0
  Preserves P m = (s : S) → P s → P (m s).1

  module _ {A B : Type 0} where
    continue-Preserves :
        (P : S → Type 0) (r : Outcome E A) (f : A → Exec S E B) (s : S)
        → ((a : A) → Preserves P (f a))
        → P s
        → P (continue r f s).1
    continue-Preserves P (ok a) f s h p = h a s p
    continue-Preserves P (raise x) f s h p = p

    pub bind-Preserves :
        (P : S → Type 0) (m : Exec S E A) (f : A → Exec S E B)
        → Preserves P m
        → ((a : A) → Preserves P (f a))
        → Preserves P (m >>= f)
    unfolding ◌>>=◌
    bind-Preserves P m f k h s p = continue-Preserves P (m s).0 f (m s).1 h (k s p)

    -- what follows a step that raises nothing
    pub bind-ok :
        (m : Exec S E A) (f : A → Exec S E B) (s : S) {a : A} {t : S}
        → m s ≡ (ok a, t)
        → (m >>= f) s ≡ f a t
    unfolding ◌>>=◌
    bind-ok m f s e = ap (λ (r : Outcome E A × S). continue r.0 f r.1) e

    continue-Ensures :
        (Q : B → S → Type 0) (r : Outcome E A) (f : A → Exec S E B) (s : S)
        → ((a : A) → r ≡ ok a → Ensures Q (f a) s)
        → (b : B) → (continue r f s).0 ≡ ok b
        → Q b (continue r f s).1
    continue-Ensures Q (ok a) f s h b e = h a refl b e
    continue-Ensures Q (raise x) f s h b e = cc

    pub bind-Ensures :
        (P : A → S → Type 0) (Q : B → S → Type 0) (m : Exec S E A) (f : A → Exec S E B) (s : S)
        → Ensures P m s
        → ((a : A) (s : S) → P a s → Ensures Q (f a) s)
        → Ensures Q (m >>= f) s
    unfolding ◌>>=◌
    bind-Ensures P Q m f s p h = continue-Ensures Q (m s).0 f (m s).1 (λ a e. h a (m s).1 (p a e))

    continue-Raises :
        (R : E → Type 0) (r : Outcome E A) (f : A → Exec S E B) (s : S)
        → ((x : E) → r ≡ raise x → R x)
        → ((a : A) → Raises R (f a) s)
        → (e : E) → (continue r f s).0 ≡ raise e
        → R e
    continue-Raises R (ok a) f s p h e k = h a e k
    continue-Raises R (raise x) f s p h e k = p e cc

    pub bind-Raises :
        (R : E → Type 0) (m : Exec S E A) (f : A → Exec S E B) (s : S)
        → Raises R m s
        → ((a : A) (s : S) → Raises R (f a) s)
        → Raises R (m >>= f) s
    unfolding ◌>>=◌
    bind-Raises R m f s p h = continue-Raises R (m s).0 f (m s).1 p (λ a. h a (m s).1)

    continue-Keeps :
        {C : Type 0} (part : S → C) (r : Outcome E A) (f : A → Exec S E B) (s : S)
        → ((a : A) → Keeps part (f a))
        → part (continue r f s).1 ≡ part s
    continue-Keeps part (ok a) f s h = h a s
    continue-Keeps part (raise x) f s h = refl

    pub bind-Keeps :
        {C : Type 0} (part : S → C) (m : Exec S E A) (f : A → Exec S E B)
        → Keeps part m
        → ((a : A) → Keeps part (f a))
        → Keeps part (m >>= f)
    unfolding ◌>>=◌
    bind-Keeps part m f p h s = continue-Keeps part (m s).0 f (m s).1 h ∙ p s

    -- what follows a step keeps the part as the step leaves it
    pub bind-Keeps_after :
        {C : Type 0} (part : S → C) (m : Exec S E A) (f : A → Exec S E B) (s : S)
        → ((a : A) → Keeps part (f a))
        → part ((m >>= f) s).1 ≡ part (m s).1
    unfolding ◌>>=◌
    bind-Keeps_after part m f s h = continue-Keeps part (m s).0 f (m s).1 h

  module _ {A : Type 0} where
    handled-Ensures :
        (Q : A → S → Type 0) (r : Outcome E A) (h : E → Exec S E A) (s : S)
        → ((a : A) → r ≡ ok a → Q a s)
        → ((e : E) → Ensures Q (h e) s)
        → (a : A) → (handled r h s).0 ≡ ok a
        → Q a (handled r h s).1
    handled-Ensures Q (ok a) h s p k b e = p b e
    handled-Ensures Q (raise x) h s p k b e = k x b e

    pub try-Ensures :
        (Q : A → S → Type 0) (m : Exec S E A) (h : E → Exec S E A) (s : S)
        → Ensures Q m s
        → ((e : E) (s : S) → Ensures Q (h e) s)
        → Ensures Q (try_except m h) s
    unfolding try_except
    try-Ensures Q m h s p k = handled-Ensures Q (m s).0 h (m s).1 p (λ e. k e (m s).1)

    handled-Raises :
        (R : E → Type 0) (r : Outcome E A) (h : E → Exec S E A) (s : S)
        → ((x : E) → Raises R (h x) s)
        → (e : E) → (handled r h s).0 ≡ raise e
        → R e
    handled-Raises R (ok a) h s k e q = cc
    handled-Raises R (raise x) h s k e q = k x e q

    -- only the handler's own exceptions come out of it
    pub try-Raises :
        (R : E → Type 0) (m : Exec S E A) (h : E → Exec S E A) (s : S)
        → ((e : E) (s : S) → Raises R (h e) s)
        → Raises R (try_except m h) s
    unfolding try_except
    try-Raises R m h s k = handled-Raises R (m s).0 h (m s).1 (λ x. k x (m s).1)

    handled-Keeps :
        {C : Type 0} (part : S → C) (r : Outcome E A) (h : E → Exec S E A) (s : S)
        → ((e : E) → Keeps part (h e))
        → part (handled r h s).1 ≡ part s
    handled-Keeps part (ok a) h s k = refl
    handled-Keeps part (raise x) h s k = k x s

    pub try-Keeps :
        {C : Type 0} (part : S → C) (m : Exec S E A) (h : E → Exec S E A)
        → Keeps part m
        → ((e : E) → Keeps part (h e))
        → Keeps part (try_except m h)
    unfolding try_except
    try-Keeps part m h p k s = handled-Keeps part (m s).0 h (m s).1 k ∙ p s

    -- what a step ensures, with the part that it keeps
    pub both-Ensures :
        {C : Type 0} (part : S → C) (Q : A → S → Type 0) (m : Exec S E A) (s : S)
        → Keeps part m
        → Ensures Q m s
        → Ensures (λ a t. Q a t × (part t ≡ part s)) m s
    both-Ensures part Q m s p q a e = (q a e, p s)
