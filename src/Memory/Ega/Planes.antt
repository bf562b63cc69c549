-- ===== src/Memory/Ega/Planes.antt =====
-- What a byte written into the planar aperture leaves in the four planes: `_ega_wb` of
-- dos_re/memory.py, reached through `wb`.
use dos_re.Prelude.{
  ℕ, zero, suc, ◌+◌, ◌*◌, ◌<◌, ◌≤◌, Bool, List, [], ◌∷◌, if◌then◌else◌, Bool-cases, ◌≡◌, ◌≢◌, refl,
  sym, ap, ◌∙◌, arith, inl, inr,
}
use native.Mathlib.Decide.{ℕ_discrete}
use dos_re.Memory.State.{Memory, ok, poke, ◌>>◌, update, ega_plane_stride}
use dos_re.Memory.State.Steps.{bind_ok, poke-in, update-other, update-same}
use dos_re.Memory.Ega.{selects, each_plane}

-- The planes p, p + 1, ... in order.
unfoldable pub planes_from : ℕ → ℕ → List ℕ
planes_from p zero = []
planes_from p (suc n) = p ∷ planes_from (suc p) n

-- The cells after one plane, and after the loop over the planes.
pub plane_step : (ℕ → ℕ) → ℕ → ℕ → (ℕ → ℕ) → ℕ → ℕ → ℕ
plane_step out mask base cells p =
    if selects mask p then update cells (base + ega_plane_stride * p) (out p) else cells

unfoldable pub stored : (ℕ → ℕ) → ℕ → ℕ → (ℕ → ℕ) → List ℕ → ℕ → ℕ
stored out mask base cells [] = cells
stored out mask base cells (p ∷ ps) = stored out mask base (plane_step out mask base cells p) ps

plane_step-elsewhere :
    (out : ℕ → ℕ) (mask base p x : ℕ) (cells : ℕ → ℕ)
    → x ≢ base + ega_plane_stride * p
    → plane_step out mask base cells p x ≡ cells x
unfolding plane_step
plane_step-elsewhere out mask base p x cells apart = elim (Bool-cases (selects mask p)) [
  | inl on ↦ rw on (update-other cells (base + ega_plane_stride * p) (out p) x apart)
  | inr off ↦ rw off refl
]

plane_step-own :
    (out : ℕ → ℕ) (mask base p : ℕ) (cells : ℕ → ℕ)
    → plane_step out mask base cells p (base + ega_plane_stride * p)
      ≡ (if selects mask p then out p else cells (base + ega_plane_stride * p))
unfolding plane_step
plane_step-own out mask base p cells = elim (Bool-cases (selects mask p)) [
  | inl on ↦ rw on (update-same cells (base + ega_plane_stride * p) (out p))
  | inr off ↦ rw off refl
]

pub each_plane-stored :
    (out : ℕ → ℕ) (mask base p n : ℕ) (m : Memory)
    → base + ega_plane_stride * (p + n) < m.size + ega_plane_stride
    → each_plane out mask base (planes_from p n) m
      ≡ ok (tt, record m { cells = stored out mask base m.cells (planes_from p n) })
unfolding each_plane stored planes_from plane_step
each_plane-stored out mask base p zero m room = refl
each_plane-stored out mask base p (suc n) m room =
    let a = base + ega_plane_stride * p in
    let changed = plane_step out mask base m.cells p in
    let rest = each_plane out mask base (planes_from (suc p) n) in
    let later =
      each_plane-stored out mask base (suc p) n (record m { cells = changed }) (omega arith) in
    let written = update m.cells a (out p) in
    let choose = λ (b : Bool). (if b then poke a (out p) >> rest else rest) m in
    let next = λ (b : Bool). rest (record m { cells = if b then written else m.cells }) in
    let first : choose (selects mask p) ≡ next (selects mask p) =
      elim (Bool-cases (selects mask p)) [
        | inl on ↦
            ap choose on
            ∙ bind_ok (poke a (out p)) (λ _. rest) m (poke-in m a (out p) (omega arith))
            ∙ ap next (sym on)
        | inr off ↦ ap choose off ∙ ap next (sym off)
      ] in
    first ∙ later

-- A cell that is none of the planes' is left alone.
pub stored-elsewhere :
    (out : ℕ → ℕ) (mask base p n x : ℕ) (cells : ℕ → ℕ)
    → ((q : ℕ) → p ≤ q → q < p + n → x ≢ base + ega_plane_stride * q)
    → stored out mask base cells (planes_from p n) x ≡ cells x
unfolding stored planes_from
stored-elsewhere out mask base p zero x cells apart = refl
stored-elsewhere out mask base p (suc n) x cells apart =
    stored-elsewhere out mask base (suc p) n x (plane_step out mask base cells p)
      (λ q from to. apart q (omega arith) (omega arith))
    ∙ plane_step-elsewhere out mask base p x cells (apart p (omega arith) (omega arith))

-- A plane's cell takes the plane's byte exactly where the map mask selects the plane.
pub stored-plane :
    (out : ℕ → ℕ) (mask base p n q : ℕ) (cells : ℕ → ℕ)
    → p ≤ q
    → q < p + n
    → stored out mask base cells (planes_from p n) (base + ega_plane_stride * q)
      ≡ (if selects mask q then out q else cells (base + ega_plane_stride * q))
unfolding stored planes_from
stored-plane out mask base p zero q cells from to = absurd (omega arith)
stored-plane out mask base p (suc n) q cells from to =
    let step = plane_step out mask base cells p in
    elim (ℕ_discrete q p) [
      | yes e ↦ rw e (
          stored-elsewhere out mask base (suc p) n (base + ega_plane_stride * p) step
            (λ j from' to' h. omega arith)
          ∙ plane_step-own out mask base p cells)
      | no ne ↦
          stored-plane out mask base (suc p) n q step (omega arith) (omega arith)
          ∙ ap (λ t. if selects mask q then out q else t)
              (plane_step-elsewhere out mask base p (base + ega_plane_stride * q) cells
                (λ h. ne (omega arith)))
    ]
