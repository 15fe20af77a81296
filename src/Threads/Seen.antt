-- ===== src/Threads/Seen.antt =====
-- Which threads are listed, and how many replies they count.
use mess.Rooms.{bare}
use mess.Base.{
  sym, subst, All-sort_by, ◌∙◌, ltb, find, ◌||◌, Map, insert_by, ◌&&◌, ◌+◌, ◌≡◌, refl, Text, Bool,
  not, List, [], ◌∷◌, ◌++◌, map, some, All, is_empty, same, any, select, length, contains,
  contains-add, Bool-cases, inl, inr, arith, sort_by, if◌then◌else◌,
}
use mess.Wire.{Message}
use mess.State.{Agent, Broker}
use mess.Threads.{
  ThreadInfo, thread_ids, belongs, noted, with_peer, gather, new_thread, thread_info, list_threads,
}

-- Whether a message replies in a thread.
abbrev pub replies_in : Text → Message → Bool
replies_in id m = not (is_empty m.thread_id) && same m.thread_id id

contains-thread_ids :
    (id : Text) (ms : List Message) → contains id (thread_ids ms) ≡ any (replies_in id) ms
unfolding thread_ids contains any
contains-thread_ids id [] = refl
contains-thread_ids id (m ∷ ms) = elim (Bool-cases (is_empty m.thread_id)) [
  | inl e ↦ rw e (contains-thread_ids id ms)
  | inr e ↦
      rw e (ground (arith, contains-add m.thread_id id (thread_ids ms), contains-thread_ids id ms))
]

noted-replies :
    (me : Text) (m : Message) (info : ThreadInfo)
    → (noted me m info).replies ≡ (if is_empty m.thread_id then info.replies else info.replies + 1)
unfolding noted with_peer
noted-replies me m info = ground arith

gather-replies :
    (me id : Text) (ms : List Message) (info : ThreadInfo)
    → (gather me id ms info).replies ≡ length (select (replies_in id) ms) + info.replies
unfolding gather belongs select
gather-replies me id [] info = omega arith
gather-replies me id (m ∷ ms) info = ground (
  arith,
  gather-replies me id ms info,
  gather-replies me id ms (noted me m info),
  noted-replies me m info,
)

gather-id :
    (me id : Text) (ms : List Message) (info : ThreadInfo) → (gather me id ms info).id ≡ info.id
unfolding gather noted with_peer
gather-id me id [] info = refl
gather-id me id (m ∷ ms) info =
    ground (arith, gather-id me id ms info, gather-id me id ms (noted me m info))

abbrev pub ids_of : List ThreadInfo → List Text
ids_of infos = map (λ (i : ThreadInfo). i.id) infos

contains-insert_by :
    (less : ThreadInfo → ThreadInfo → Bool) (k : Text) (x : ThreadInfo) (ys : List ThreadInfo)
    → contains k (ids_of (insert_by less x ys)) ≡ same x.id k || contains k (ids_of ys)
unfolding contains insert_by
contains-insert_by less k x [] = refl
contains-insert_by less k x (y ∷ ys) = ground (arith, contains-insert_by less k x ys)

contains-sorted :
    (less : ThreadInfo → ThreadInfo → Bool) (k : Text) (xs : List ThreadInfo)
    → contains k (ids_of (sort_by less xs)) ≡ contains k (ids_of xs)
unfolding contains sort_by
contains-sorted less k [] = refl
contains-sorted less k (x ∷ xs) =
    ground (arith, contains-insert_by less k x (sort_by less xs), contains-sorted less k xs)

module _ (me : Text) (seen : List Message) (participants : Map (List Text)) where
  info-id : (id : Text) → (thread_info me seen participants id).id ≡ id
  unfolding thread_info new_thread
  info-id id = gather-id me id seen _

  info-replies :
      (id : Text)
      → (thread_info me seen participants id).replies ≡ length (select (replies_in id) seen)
  unfolding thread_info new_thread
  info-replies id = omega (arith, gather-replies me id seen (new_thread id))

  contains-infos :
      (k : Text) (ids : List Text)
      → contains k (ids_of (map (thread_info me seen participants) ids)) ≡ contains k ids
  unfolding contains
  contains-infos k [] = refl
  contains-infos k (id ∷ ids) = rw (info-id id, contains-infos k ids) refl

  counts :
      (ids : List Text)
      → All
          (λ (i : ThreadInfo). i.replies ≡ length (select (replies_in i.id) seen))
          (map (thread_info me seen participants) ids)
  counts [] = tt
  counts (id ∷ ids) = (rw (info-id id) (info-replies id), counts ids)

-- A list of threads shows those in which some message replies, with the number of those replies.
abbrev pub Shown : List Message → List ThreadInfo → Type 0
Shown seen infos =
    ((id : Text) → contains id (ids_of infos) ≡ any (replies_in id) seen)
    × All (λ (i : ThreadInfo). i.replies ≡ length (select (replies_in i.id) seen)) infos

module _ (name : Text) (b : Broker) (a : Agent) (known : find name b.agents ≡ some a) where
  -- The messages that the agent has seen, and its threads, before they are sorted.
  abbrev seen_by : List Message
  seen_by = a.history ++ a.inbox

  abbrev infos : List ThreadInfo
  infos = map (thread_info (bare name) seen_by b.thread_participants) (thread_ids seen_by)

  abbrev later : ThreadInfo → ThreadInfo → Bool
  later x y = ltb y.last_activity x.last_activity

  list_threads-sorted : list_threads name b ≡ sort_by later infos
  unfolding list_threads
  list_threads-sorted = rw (list_threads, known) refl

  -- The threads that an agent is shown are those in which some message replies that it has seen, and
  -- no others; each is shown with the number of replies in it that the agent has seen.
  pub list_threads_lem : Shown (a.history ++ a.inbox) (list_threads name b)
  list_threads_lem = subst (Shown seen_by) (sym list_threads-sorted) (
    (λ id.
        contains-sorted later id infos
        ∙ (contains-infos (bare name) seen_by b.thread_participants id (thread_ids seen_by)
            ∙ contains-thread_ids id seen_by)),
    All-sort_by (λ (i : ThreadInfo). i.replies ≡ length (select (replies_in i.id) seen_by)) later
        infos (counts (bare name) seen_by b.thread_participants (thread_ids seen_by)),
  )
