-- ===== src/Links/Chain.antt =====
-- When memory holds a queue: from the head the `next` fields lead through distinct entries back to
-- the head, and the `prev` fields lead the same way back.
use ze_ospi.Base.{◌≡◌, ◌∙◌, ◌≢◌, List, [], ◌∷◌, ◌++◌, arith, All}
use ze_ospi.Links.{Ptr, Links, init_list_head}

-- No entry of the list is `a`.
abbrev pub Apart : Ptr → List Ptr → Type 0
Apart a = All (λ x. a ≢ x)

abbrev pub Distinct : List Ptr → Type 0
Distinct [] = Unit
Distinct (x ∷ xs) = Apart x xs × Distinct xs

-- From `p` through the entries `xs` to `stop`, linked in both directions.
abbrev pub Chain : Links → Ptr → List Ptr → Ptr → Type 0
Chain h p [] stop = (h.next p ≡ stop) × (h.prev stop ≡ p)
Chain h p (x ∷ xs) stop = (h.next p ≡ x) × (h.prev x ≡ p) × Chain h x xs stop

pub record IsQueue (h : Links) (head : Ptr) (xs : List Ptr) : Type 0 where
  pub chain : Chain h head xs head
  pub apart : Apart head xs
  pub distinct : Distinct xs

-- The last entry of the queue, or the head.
abbrev pub last : Ptr → List Ptr → Ptr
last p [] = p
last p (x ∷ xs) = last x xs

pub prev-last :
    (h : Links) (p : Ptr) (xs : List Ptr) (stop : Ptr) → Chain h p xs stop → h.prev stop ≡ last p xs
prev-last h p [] stop c = c.1
prev-last h p (x ∷ xs) stop c = prev-last h x xs stop c.2

pub last-ne : (a p : Ptr) (xs : List Ptr) → a ≢ p → Apart a xs → a ≢ last p xs
last-ne a p [] h out = h
last-ne a p (x ∷ xs) h out = last-ne a x xs out.0 out.1

-- A chain survives any change of memory that keeps the fields which it reads.
pub Chain-frame :
    (h g : Links) (p : Ptr) (xs : List Ptr) (stop : Ptr)
    → Chain h p xs stop
    → g.next p ≡ h.next p
    → All (λ x. (g.next x ≡ h.next x) × (g.prev x ≡ h.prev x)) xs
    → g.prev stop ≡ h.prev stop
    → Chain g p xs stop
Chain-frame h g p [] stop c np all ps = ground arith
Chain-frame h g p (x ∷ xs) stop c np all ps =
    let rest = Chain-frame h g x xs stop c.2 all.0.0 all.1 ps in
    let e = all.0.1 in (np ∙ c.0, e ∙ c.1, rest)

-- The same, but the last entry now leads to `t`.
pub Chain-relink :
    (h g : Links) (p : Ptr) (xs : List Ptr) (stop t : Ptr)
    → Chain h p xs stop
    → Apart p xs
    → Distinct xs
    → g.next (last p xs) ≡ t
    → g.prev t ≡ last p xs
    → ((a : Ptr) → a ≢ last p xs → a ≢ t → g.next a ≡ h.next a)
    → All (λ x. (x ≢ t) × (g.prev x ≡ h.prev x)) xs
    → p ≢ t
    → Chain g p xs t
Chain-relink h g p [] stop t c out d e f same all pt = (e, f)
Chain-relink h g p (x ∷ xs) stop t c out d e f same all pt = (
  same p (last-ne p x xs out.0 out.1) pt ∙ c.0,
  all.0.1 ∙ c.1,
  Chain-relink h g x xs stop t c.2 d.0 d.1 e f same all.1 all.0.0,
)

pub Chain-append :
    (h : Links) (p : Ptr) (xs : List Ptr) (x : Ptr) (ys : List Ptr) (stop : Ptr)
    → Chain h p xs x
    → Chain h x ys stop
    → Chain h p (xs ++ x ∷ ys) stop
Chain-append h p [] x ys stop c d = (c.0, c.1, d)
Chain-append h p (y ∷ xs) x ys stop c d = (c.0, c.1, Chain-append h y xs x ys stop c.2 d)

-- `INIT_LIST_HEAD` makes an empty queue.
pub init-IsQueue : (h : Links) (head : Ptr) → IsQueue (init_list_head head h) head []
unfolding init_list_head
init-IsQueue h head = ground arith
