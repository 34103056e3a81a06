-- ===== src/Pipeline/Worker/Order.antt =====
-- The worker handles events at most once, in the order of the stream.
use mathlib.Core.Logic.{∥∥₁_map}
use mathlib.Core.List.{Sublist, Sublistᴰ, append_assoc, append-nil, map-append, sublist-append_left}
use mathlib.Core.List.Sublist.{refl as sublist_refl, trans, append}
use trade_journal.Prelude.{
  ℕ, String, ◌≡◌, refl, sym, ap, subst, ◌∙◌, List, [], ◌∷◌, ◌++◌, map, Result, ok, ◌⊎◌, inl, inr,
}
use trade_journal.Platform.{Platform, Message, Arg}
use trade_journal.Platform.Laws.{GroupLaws, messages}
use trade_journal.Store.World.{World}
use trade_journal.Store.World.Frames.{call_keeps}
use trade_journal.Cache.Stream.{Streams, arg_texts, add, ack}
use trade_journal.Cache.Group.{Delivers, read_group-Delivers, attempt_post}
use trade_journal.Cache.Window.{window_commands}
use trade_journal.Pipeline.{Fields, process_message}
use trade_journal.Pipeline.Effects.{process_message-redis}
use trade_journal.Pipeline.Worker.{
  stream_name, group_name, consumer_name, read, handle, handle_all, handle_streams, loop,
}
use trade_journal.Pipeline.Worker.History.{
  History, start, published, paused, failed, handled, contents, handle_streams_once, loop-Continues,
}

map-Sublistᴰ {ℓ κ} :
    {A : Type ℓ} {B : Type κ} (f : A → B) {xs ys : List A}
    → Sublistᴰ xs ys
    → Sublistᴰ (map f xs) (map f ys)
map-Sublistᴰ f Sublistᴰ.slnil = Sublistᴰ.slnil
map-Sublistᴰ f (Sublistᴰ.cons d) = Sublistᴰ.cons (map-Sublistᴰ f d)
map-Sublistᴰ f (Sublistᴰ.cons-cons e d) = Sublistᴰ.cons-cons (ap f e) (map-Sublistᴰ f d)

contents_sublist : {ms ns : List Message} → Sublist ms ns → Sublist (contents ms) (contents ns)
contents_sublist h = ∥∥₁_map h (map-Sublistᴰ (λ (m : Message). m.values))

-- The messages of the streams are handled one after another.
pub handle_all-append :
    {p : Platform} (ms ns : List Message) (w : World p)
    → handle_all (ms ++ ns) w ≡ handle_all ns (handle_all ms w)
unfolding handle_all
handle_all-append [] ns w = refl
handle_all-append (m ∷ ms) ns w = handle_all-append ms ns (handle m w)

pub handle_streams_all :
    {p : Platform} (streams : Streams) (w : World p)
    → handle_streams streams w ≡ handle_all (messages streams) w
unfolding handle_streams handle_all
handle_streams_all [] w = refl
handle_streams_all ((name, ms) ∷ streams) w =
    handle_streams_all streams (handle_all ms w) ∙ sym (handle_all-append ms (messages streams) w)

-- What every message keeps, they keep together.
pub handle_streams_keeps :
    {p : Platform} (Q : World p → Type 0)
    → ((m : Message) (w : World p) → Q w → Q (handle m w))
    → (streams : Streams) (w : World p) → Q w
    → Q (handle_streams streams w)
unfolding handle_all
handle_streams_keeps {p} Q keeps streams w h =
    subst Q (sym (handle_streams_all streams w)) (all (messages streams) w h)
  where
    all : (ms : List Message) (w : World p) → Q w → Q (handle_all ms w)
    all [] w h = h
    all (m ∷ ms) w h = all ms (handle m w) (keeps m w h)

module _ {p : Platform} (laws : GroupLaws p) where
  abbrev pub unread_of : World p → List Message
  unread_of w = laws.unread w.redis stream_name group_name

  handle-unread :
      (us : List Message) (m : Message) (w : World p)
      → unread_of w ≡ us
      → unread_of (handle m w) ≡ us
  unfolding handle ack window_commands
  handle-unread us m w h =
      call_keeps (λ v. unread_of v ≡ us) _ (λ v k. laws.ack_unread v.redis _ _ m.id ∙ k)
        (λ v s k. k) (process_message m.values w)
        (process_message-redis (λ r. laws.unread r stream_name group_name ≡ us)
          (λ r key id now_ms window_ms k.
            (laws.window_frame r stream_name group_name key id now_ms _ _).0 ∙ k)
          m.values w h)

  pub handle_streams-unread :
      (streams : Streams) (w : World p) → unread_of (handle_streams streams w) ≡ unread_of w
  handle_streams-unread streams w =
      handle_streams_keeps (λ v. unread_of v ≡ unread_of w) (handle-unread (unread_of w)) streams w
        refl

  pub read-Delivers :
      (v v' : World p) (x : Result Streams)
      → read v ≡ (x, v')
      → Delivers laws stream_name group_name v.redis x v'.redis
  read-Delivers v v' x e =
      subst
        (λ (y : Result Streams × World p).
          Delivers laws stream_name group_name v.redis y.0 y.1.redis)
        e (read_group-Delivers laws stream_name group_name consumer_name 10 5000 v)

  -- The event is appended, or the call has not reached the server.
  add_unread :
      (values : List (String × Arg)) (v : World p)
      → (unread_of (add stream_name values v).1 ≡ unread_of v)
        ⊎ (unread_of (add stream_name values v).1
            ≡ unread_of v ++ (laws.added v.redis stream_name (arg_texts p values) ∷ []))
  unfolding add
  add_unread values v =
      let appended = laws.add_unread v.redis stream_name group_name (arg_texts p values) in
      attempt_post
        (λ _ r.
          (laws.unread r stream_name group_name ≡ unread_of v)
          ⊎ (laws.unread r stream_name group_name
              ≡ unread_of v ++ (laws.added v.redis stream_name (arg_texts p values) ∷ [])))
        (λ _ r. (ok tt, p.xadd r stream_name (arg_texts p values))) v (inr appended) (inl refl)
        (inr appended)

  abbrev pub InOrder : World p → List Fields → List Fields → World p → Type 0
  InOrder w es hs v = Sublist (hs ++ contents (unread_of v)) (contents (unread_of w) ++ es)

  grown :
      (w v : World p) (es hs : List Fields) (values : List (String × Arg))
      → InOrder w es hs v
      → InOrder w (es ++ (arg_texts p values ∷ [])) hs (add stream_name values v).1
  grown w v es hs values h =
      let event = arg_texts p values ∷ [] in
      let old = contents (unread_of w) in
      let longer = append_assoc old es event in
      elim (add_unread values v) [
        | inl same ↦
            rw same (subst (Sublist _) longer (trans h (sublist-append_left (old ++ es) event)))
        | inr one_more ↦
            let read_back =
              map-append (λ m. m.values) (unread_of v)
                (laws.added v.redis stream_name (arg_texts p values) ∷ [])
              ∙ ap (λ x. contents (unread_of v) ++ (x ∷ []))
                  (laws.added_values v.redis stream_name (arg_texts p values)) in
            rw (one_more, read_back)
              (subst (Sublist _) longer (
                subst (λ xs. Sublist xs (old ++ es ++ event))
                  (append_assoc hs (contents (unread_of v)) event) (append h (sublist_refl event))))
      ]

  pub History-InOrder :
      {w v : World p} {es hs : List Fields} → History w es hs v → InOrder w es hs v
  History-InOrder {w} start = rw (append-nil (contents (unread_of w))) (sublist_refl _)
  History-InOrder {w} (published {es} {hs} {v} values h) =
      grown w v es hs values (History-InOrder h)
  History-InOrder (paused h) = History-InOrder h
  History-InOrder {w} (failed {es} {hs} {v} {v'} e h) =
      trans (append (sublist_refl hs) (contents_sublist (read-Delivers v v' _ e)))
        (History-InOrder h)
  History-InOrder {w} (handled {es} {hs} {v} {v'} {streams} e h) =
      let (_, next, _) = read-Delivers v v' _ e in
      let taken = ap contents next ∙ map-append (λ m. m.values) (messages streams) (unread_of v') in
      rw (sym (handle_streams_once streams v'), handle_streams-unread streams v')
        (subst (λ xs. Sublist xs (contents (unread_of w) ++ es))
          (ap (λ xs. hs ++ xs) taken ∙ sym (append_assoc hs _ _)) (History-InOrder h))

  -- A worker that goes on after any history, however many calls fail, continues it: it handles only
  -- messages that it was given, and of a reply it processes each message once, in order, and confirms
  -- it before the next. What it has handled, followed by what the group has yet to be given, is a
  -- part, in order, of what the group had to be given at first, followed by what was published. So no
  -- event is processed twice, or before an earlier one.
  pub loop-InOrder :
      (n : ℕ) {w v : World p} {es hs : List Fields}
      → History w es hs v
      → (later : List Fields) × History w es later (loop n v) × InOrder w es later (loop n v)
  loop-InOrder n {w} {v} {es} h =
      let (later, longer) = loop-Continues w es n v (_, h) in
      (later, longer, History-InOrder longer)
