-- ===== src/Tts/Track/Streams.antt =====
-- Changes to the stream of one operation of `TtsImpl` (src/tts/tts_impl.cc), with the streams still
-- matched to the operations.
use rokid_openvoice_sdk.Base.{
  ℕ, ◌≡◌, ◌≢◌, ◌⊎◌, inl, inr, refl, ap, sym, ◌∙◌, subst, false, Option, some, List, [], ◌∷◌, ◌++◌,
  All, ◌==◌, Bool-cases, Option-cases,
}
use rokid_openvoice_sdk.OpCtl.{Status, Operation}
use rokid_openvoice_sdk.OpCtl.Invariant.{In, is_live}
use rokid_openvoice_sdk.Stream.{Kind, uncompleted, completed, deleted, error}
use rokid_openvoice_sdk.Stream
use rokid_openvoice_sdk.Stream.Spec
use rokid_openvoice_sdk.Stream.Spec.{Stream}
use rokid_openvoice_sdk.Tts.{TtsResultIn}
use rokid_openvoice_sdk.Tts.Track.{Streams, HasValue, Streamless, LastLive, Belongs, Tracks}

-- A change of any one stream that keeps its id and its kind, and adds no null data.
Tracks-update :
    (st : ℕ → Operation) (id : ℕ) (f : Stream TtsResultIn ℕ → Stream TtsResultIn ℕ) (hs : List ℕ)
    (ss : Streams)
    → ((o : Operation) (t : Stream TtsResultIn ℕ) → Belongs o t → Belongs o (f t))
    → Tracks st hs ss
    → Tracks st hs (Spec.update id f ss)
unfolding Spec.update
Tracks-update st id f [] ss keeps k = rw k refl
Tracks-update st id f (h ∷ hs) ss keeps (d, l, inl (n, k)) =
    (d, l, inl (streamless (st h).status n, Tracks-update st id f hs ss keeps k))
  where
    streamless : (t : Status) → Streamless t ss → Streamless t (Spec.update id f ss)
    streamless Status.start e = rw e refl
    streamless Status.cancelled e = tt
    streamless Status.error e = tt
    streamless Status.streaming e = e
    streamless Status.ended e = e
Tracks-update st id f (h ∷ hs) ss keeps (d, l, inr (t, rest, e, b, k)) =
    elim (Bool-cases (t.id == id)) [
      | inl i ↦ (d, l, inr (f t, rest, rw e (simp i refl), keeps (st h) t b, k))
      | inr i ↦ (
        d,
        l,
        inr (
          t,
          Spec.update id f rest,
          rw e (simp i refl),
          b,
          Tracks-update st id f hs rest keeps k,
        ),
      )
    ]

-- `stream` with some data, for whatever id.
pub stream-Tracks :
    (st : ℕ → Operation) (id : ℕ) (x : TtsResultIn) (hs : List ℕ) (ss : Streams)
    → Tracks st hs ss
    → Tracks st hs (Spec.stream id (some x) ss).0
unfolding Spec.stream
stream-Tracks st id x hs ss k = elim (Option-cases (Spec.lookup id ss)) [
  | inl e ↦ simp (e, Spec.stream) k
  | inr (t, e) ↦ elim (Bool-cases (Stream.is_uncompleted t.kind)) [
    | inl u ↦ simp (e, u, Spec.stream) (Tracks-update st id (Spec.feed (some x)) hs ss fed k)
    | inr u ↦ simp (e, u, Spec.stream) k
  ]
]
  where
    appended : (ds : List (Option TtsResultIn)) → All HasValue ds → All HasValue (ds ++ some x ∷ [])
    appended [] a = (tt, tt)
    appended (y ∷ ys) a = (a.0, appended ys a.1)

    fed :
        (o : Operation) (t : Stream TtsResultIn ℕ) → Belongs o t → Belongs o (Spec.feed (some x) t)
    fed o t (i, m, v) = unfold Spec.feed in (i, m, appended t.datas v)

pub all_at : (P : ℕ → Type 0) (h : ℕ) (hs : List ℕ) → All P hs → In h hs → P h
all_at P h [] a m = absurd m
all_at P h (k ∷ hs) a (inl e) = subst P (sym e) a.0
all_at P h (k ∷ hs) a (inr m) = all_at P h hs a.1 m

ids_moved :
    (st st' : ℕ → Operation) (i : ℕ) (hs : List ℕ)
    → ((k : ℕ) → (st' k).id ≡ (st k).id)
    → All (λ k. (st k).id ≢ i) hs
    → All (λ k. (st' k).id ≢ i) hs
ids_moved st st' i [] w a = tt
ids_moved st st' i (h ∷ hs) w a = ((λ e. a.0 (sym (w h) ∙ e)), ids_moved st st' i hs w a.1)

last_dead : (t : Status) (h : ℕ) (hs : List ℕ) → LastLive t hs → In h hs → is_live t ≡ false
last_dead t h [] l m = absurd m
last_dead t h (k ∷ hs) l m = l

Streamless-any : (t : Status) (x y : Streams) → is_live t ≡ false → Streamless t x → Streamless t y
Streamless-any Status.start x y e n = cc
Streamless-any Status.streaming x y e n = n
Streamless-any Status.ended x y e n = n
Streamless-any Status.cancelled x y e n = tt
Streamless-any Status.error x y e n = tt

-- A change at one operation and at the streams from its own on.
module _ (st st' : ℕ → Operation) (h : ℕ) (change : Streams → Streams)
    (skip : (t : Stream TtsResultIn ℕ) (rest : Streams)
      → t.id ≢ (st h).id
      → change (t ∷ rest) ≡ t ∷ change rest)
    (other : (k : ℕ) → (st k).id ≢ (st h).id → st' k ≡ st k)
    (ids : (k : ℕ) → (st' k).id ≡ (st k).id)
    (here : (hs : List ℕ) (ss : Streams)
      → Tracks st (h ∷ hs) ss
      → Tracks st' (h ∷ hs) (change ss)) where
  pub Tracks-at :
      (hs : List ℕ) (ss : Streams) → In h hs → Tracks st hs ss → Tracks st' hs (change ss)
  Tracks-at [] ss m t = absurd m
  Tracks-at (k ∷ hs) ss (inl e) t =
      subst (λ (x : ℕ). Tracks st' (x ∷ hs) (change ss)) e
        (here hs ss (subst (λ (x : ℕ). Tracks st (x ∷ hs) ss) (sym e) t))
  Tracks-at (k ∷ hs) ss (inr m) (d, l, c) =
      subst Entry (sym (other k (λ e. all_at (λ j. (st j).id ≢ (st k).id) h hs d m (sym e))))
        (ids_moved st st' (st k).id hs ids d, l, entry c (Tracks-at hs))
    where
      Entry : Operation → Type 0
      Entry o =
          All (λ j. (st' j).id ≢ o.id) hs
          × LastLive o.status hs
          × ((Streamless o.status (change ss) × Tracks st' hs (change ss))
              ⊎ ((t : Stream TtsResultIn ℕ) × (rest : Streams) × (change ss ≡ t ∷ rest)
                  × Belongs o t
                  × Tracks st' hs rest))

      Rest : (ℕ → Operation) → Streams → Type 0
      Rest s x =
          (Streamless (st k).status x × Tracks s hs x)
          ⊎ ((t : Stream TtsResultIn ℕ) × (rest : Streams) × (x ≡ t ∷ rest)
              × Belongs (st k) t
              × Tracks s hs rest)

      entry :
          Rest st ss
          → ((x : Streams) → In h hs → Tracks st hs x → Tracks st' hs (change x))
          → Rest st' (change ss)
      entry (inl (n, t)) r = inl (
        Streamless-any (st k).status ss (change ss) (last_dead (st k).status h hs l m) n,
        r ss m t,
      )
      entry (inr (x, rest, e, b, t)) r = inr (
        x,
        change rest,
        ap change e ∙ skip x rest (λ i. all_at (λ j. (st j).id ≢ (st k).id) h hs d m (sym i ∙ b.0)),
        b,
        r rest m t,
      )
