-- ===== src/Discipline/Possession.antt =====
-- What an LWP holds, as it takes and gives back mutexes.
use multi_process_threading.Base.{
  ◌≡◌, sym, ap, ◌∙◌, subst, true, false, Option, none, some, List, [], ◌∷◌, inl, inr, ◌⊎◌, ◌<◌, ℕ,
}
use multi_process_threading.State.{State, LwpId, PmutId, get_pmut, put_pmut}
use multi_process_threading.Cmd.Solo.{get-put_pmut}
use multi_process_threading.Discipline.{is_tracked, Holds, Out, Has, In, Held, rank, Ranked, Left}
use multi_process_threading.Discipline.Pmuts.{get-put_other, put-get}

Has-same :
    (ls : List PmutId) (s z : State)
    → ((m : PmutId) → is_tracked m ≡ true → Holds m s → Holds m z)
    → Has ls s
    → Has ls z
Has-same [] s z l h = tt
Has-same (m ∷ ms) s z l h = (l m h.1 h.0, h.1, h.2, Has-same ms s z l h.3)

pub Held-same :
    (ls : List PmutId) (s z : State)
    → ((m : PmutId) → is_tracked m ≡ true → Holds m s → Holds m z)
    → ((m : PmutId) → is_tracked m ≡ true → Holds m z → Holds m s)
    → Held ls s
    → Held ls z
Held-same ls s z l b h = record {
  has = Has-same ls s z l h.has;
  only = λ m k x. h.only m k (b m k x);
}

pub Held-left : (ls : List PmutId) (s z : State) → Left s z → Held ls s → Held ls z
Held-left ls s z l h = Held-same ls s z l.holds (λ m k. l.only m) h

-- A mutex that is free is none of those held.
free-Out :
    (m : PmutId) (ls : List PmutId) (s : State) → get_pmut s.pmuts m ≡ none → Has ls s → Out m ls
free-Out m [] s e h = tt
free-Out m (x ∷ xs) s e h = (
  λ same. let both : none ≡ some s.cpu = sym e ∙ ap (get_pmut s.pmuts) same ∙ h.0 in absurd cc,
  free-Out m xs s e h.3,
)

pub untracked-Out :
    (m : PmutId) (ls : List PmutId) (s : State) → is_tracked m ≡ false → Has ls s → Out m ls
untracked-Out m [] s e h = tt
untracked-Out m (x ∷ xs) s e h = (
  λ same. let both : false ≡ true = sym e ∙ ap is_tracked same ∙ h.1 in absurd cc,
  untracked-Out m xs s e h.3,
)

Has-put :
    (m : PmutId) (o : Option LwpId) (ls : List PmutId) (s : State)
    → Out m ls
    → Has ls s
    → Has ls (record s { pmuts = put_pmut s.pmuts m o })
Has-put m o [] s w h = tt
Has-put m o (x ∷ xs) s w h =
    (get-put_other s.pmuts m x o w.0 ∙ h.0, h.1, h.2, Has-put m o xs s w.1 h.3)

-- A mutex that the LWP gives up.
pub Held-gives :
    (m : PmutId) (ls : List PmutId) (s : State)
    → Out m ls
    → Has ls s
    → ((x : PmutId) → is_tracked x ≡ true → Holds x s → (m ≡ x) ⊎ In x ls)
    → Held ls (record s { pmuts = put_pmut s.pmuts m none })
Held-gives m ls s w h o = record {
  has = Has-put m none ls s w h;
  only = λ x k e. elim (put-get s.pmuts m x none s.cpu e) [
    | inl y ↦ elim (o x k y) [
      | inl same ↦
          let gone : none ≡ some s.cpu =
            sym (get-put_pmut s.pmuts m none) ∙ ap (get_pmut (put_pmut s.pmuts m none)) same ∙ e in
          absurd cc
      | inr i ↦ i
    ]
    | inr y ↦ let both : none ≡ some s.cpu = y.1 in absurd cc
  ];
}

-- An untracked mutex that it gets.
pub Held-gets :
    (m : PmutId) (ls : List PmutId) (s : State)
    → is_tracked m ≡ false
    → Held ls s
    → Held ls (record s { pmuts = put_pmut s.pmuts m (some s.cpu) })
Held-gets m ls s k h = record {
  has = Has-put m (some s.cpu) ls s (untracked-Out m ls s k h.has) h.has;
  only = λ x t e. h.only x t (
      sym (
        get-put_other s.pmuts m x (some s.cpu)
          (λ same. let both : false ≡ true = sym k ∙ ap is_tracked same ∙ t in absurd cc))
      ∙ e);
}

-- A tracked one.
pub Held-takes :
    (m : PmutId) (ls : List PmutId) (s : State)
    → get_pmut s.pmuts m ≡ none
    → is_tracked m ≡ true
    → Held ls s
    → Held (m ∷ ls) (record s { pmuts = put_pmut s.pmuts m (some s.cpu) })
Held-takes m ls s e k h = record {
  has = (
    get-put_pmut s.pmuts m (some s.cpu),
    k,
    free-Out m ls s e h.has,
    Has-put m (some s.cpu) ls s (free-Out m ls s e h.has) h.has,
  );
  only = λ x t i. elim (put-get s.pmuts m x (some s.cpu) s.cpu i) [
    | inl y ↦ inr (h.only x t y)
    | inr y ↦ inl y.0
  ];
}

-- All of these are of a lower rank.
abbrev pub AreBelow : ℕ → List PmutId → Type 0
AreBelow n [] = Unit {0}
AreBelow n (x ∷ xs) = (rank x < n) × AreBelow n xs

In-lt : (n : ℕ) (ls : List PmutId) (x : PmutId) → AreBelow n ls → In x ls → rank x < n
In-lt n [] x b i = absurd i
In-lt n (y ∷ ys) x b (inl e) = subst (λ z. rank z < n) e b.0
In-lt n (y ∷ ys) x b (inr i) = In-lt n ys x b.1 i

pub Held-Ranked :
    (m : PmutId) (ls : List PmutId) (s : State) → AreBelow (rank m) ls → Held ls s → Ranked m s
Held-Ranked m ls s b h x k e = In-lt (rank m) ls x b (h.only x k e)
