-- ===== src/Util/ReentrantMutex/Invariant.antt =====
-- kernel/src/util/mutex.rs: what holds of a `ReentrantMutex` and its CPUs between any two steps.
use hootux.Util.ReentrantMutex.{
  ReentrantMutex, Pc, idle, loading, storing, counting, releasing, clearing, System, start, new,
}
use hootux.Prelude.{
  ℕ, ◌<◌, ◌≤◌, ◌≡◌, refl, ◌∙◌, ◌≢◌, ◌⊎◌, inl, inr, Bool, true, false, Option, none, some, arith,
}

-- The owner holds as many guards as the count says, at least one, and any other CPU holds none.
unfoldable pub Held : ReentrantMutex → ℕ → ℕ → Type 0
Held m i guards =
    ((m.owner ≡ some i) × (m.lock_count ≡ guards) × (0 < guards))
    ⊎ ((m.owner ≢ some i) × (guards ≡ 0))

-- What CPU `i` may rely on, where `holder` is the CPU that took the control bit.
unfoldable pub CpuOk : Option ℕ → ReentrantMutex → ℕ → Pc → ℕ → Type 0
unfolding Held
CpuOk holder m i idle guards = (holder ≢ some i) × Held m i guards
CpuOk holder m i (loading pedantic) guards = (holder ≡ some i) × Held m i guards
CpuOk holder m i storing guards = (holder ≡ some i) × (m.owner ≡ none) × (guards ≡ 0)
CpuOk holder m i counting guards = (holder ≡ some i) × (m.owner ≡ some i) × (m.lock_count ≡ guards)
CpuOk holder m i releasing guards = (holder ≡ some i) × Held m i guards
CpuOk holder m i clearing guards =
    (holder ≢ some i) × (m.owner ≡ some i) × (m.lock_count ≡ 0) × (guards ≡ 0)

-- The control bit is set exactly while some CPU holds it.
unfoldable pub ControlOk : Option ℕ → Bool → Type 0
ControlOk none control = control ≡ false
ControlOk (some i) control = control ≡ true

pub record Inv (s : System) (bound : ℕ) : Type 0 where
  pub holder : Option ℕ
  pub control_ok : ControlOk holder s.mutex.control
  pub unowned : s.mutex.owner ≡ none → s.mutex.lock_count ≡ 0
  pub cpu_ok : (i : ℕ) → CpuOk holder s.mutex i (s.cpus i).pc (s.cpus i).guards
  pub bounded : (i : ℕ) → (s.cpus i).guards ≤ bound

-- What a step of one CPU leaves alone for CPU `j`.
pub record Frame (j : ℕ) (h : Option ℕ) (m : ReentrantMutex) (h' : Option ℕ) (m' : ReentrantMutex)
    : Type 0 where
  pub keeps_holder : (h ≡ some j → h' ≡ some j) × (h' ≡ some j → h ≡ some j)
  pub keeps_owner : (m.owner ≡ some j → m'.owner ≡ some j) × (m'.owner ≡ some j → m.owner ≡ some j)
  pub keeps_count : m.owner ≡ some j → m'.lock_count ≡ m.lock_count
  pub keeps_none : h ≡ some j → m.owner ≡ none → m'.owner ≡ none

module _ {j : ℕ} {h h' : Option ℕ} {m m' : ReentrantMutex} (f : Frame j h m h' m') where
  Held-Frame : (g : ℕ) → Held m j g → Held m' j g
  unfolding Held
  Held-Frame g (inl (o, c, p)) = inl (f.keeps_owner.0 o, f.keeps_count o ∙ c, p)
  Held-Frame g (inr (o, z)) = inr (λ e. o (f.keeps_owner.1 e), z)

  pub CpuOk-Frame : (pc : Pc) (g : ℕ) → CpuOk h m j pc g → CpuOk h' m' j pc g
  unfolding CpuOk
  CpuOk-Frame idle g (n, k) = (λ e. n (f.keeps_holder.1 e), Held-Frame g k)
  CpuOk-Frame (loading p) g (n, k) = (f.keeps_holder.0 n, Held-Frame g k)
  CpuOk-Frame storing g (n, o, z) = (f.keeps_holder.0 n, f.keeps_none n o, z)
  CpuOk-Frame counting g (n, o, c) = (f.keeps_holder.0 n, f.keeps_owner.0 o, f.keeps_count o ∙ c)
  CpuOk-Frame releasing g (n, k) = (f.keeps_holder.0 n, Held-Frame g k)
  CpuOk-Frame clearing g (n, o, c, z) =
      (λ e. n (f.keeps_holder.1 e), f.keeps_owner.0 o, f.keeps_count o ∙ c, z)

pub start-Inv : Inv start 0
unfolding start new CpuOk Held ControlOk
start-Inv = record {
  holder = none;
  control_ok = refl;
  unowned = λ e. refl;
  cpu_ok = λ i. (λ e. absurd cc, inr (λ e. absurd cc, refl));
  bounded = λ i. omega arith;
}
