-- ===== src/Posix/Destroy.antt =====
-- `apibus_destroy` of src/apix.c on a bus with the sinks of src/apix-posix.c.
use extlib.Common.{ℕ, ◌≡◌, refl, sym, ap, ◌∙◌, false, List, [], ◌∷◌, arith, All}
use extlib.Bus.{Bus, SinkFd}
use extlib.Bus.Sinks.{Sink, del_sink}
use extlib.Posix.{remove_member}
use extlib.Posix.Ops.{Run, LiveSink}
use extlib.Posix.Disable.{disable_one, disable_one-lacking, lacking}

-- the descriptor `fd` leaves the list of its sink
abbrev leave_sinks : ℕ → List LiveSink → List LiveSink
leave_sinks fd [] = []
leave_sinks fd (l ∷ ls) =
    let rest = leave_sinks fd ls in
    record l { posix = record l.posix { members = remove_member fd l.posix.members } } ∷ rest

-- `sinkfd_destroy` on all descriptors of the bus
destroy_sinkfds : List SinkFd → List LiveSink → List LiveSink
destroy_sinkfds [] lives = lives
destroy_sinkfds (s ∷ ss) lives = destroy_sinkfds ss (leave_sinks s.fd lives)

abbrev sinks_of : List LiveSink → List (Sink Run)
sinks_of [] = []
sinks_of (l ∷ ls) = l.sink ∷ sinks_of ls

-- the last loop, over the sinks of the bus
fini_sinks : List LiveSink → List (Sink Run) → Bus → List LiveSink × List (Sink Run) × Bus
fini_sinks [] sinks bus = ([], sinks, bus)
fini_sinks (l ∷ ls) sinks bus =
    let (off, ss, b) = disable_one l sinks bus in
    let (offs, ss', b') = fini_sinks ls ss b in (off ∷ offs, ss', b')

-- the bus with nothing on its lists
abbrev pub emptied : Bus → Bus
emptied bus = record bus {
  requests = [];
  responses = [];
  stations = [];
  topic_msgs = [];
  topics = [];
  sinkfds = [];
}

-- What is on the lists of the bus is taken off and freed.
pub apibus_destroy : List LiveSink → Bus → List LiveSink × List (Sink Run) × Bus
unfolding destroy_sinkfds fini_sinks
apibus_destroy lives bus =
    fini_sinks (destroy_sinkfds bus.sinkfds lives) (sinks_of lives) (emptied bus)

-- A sink without a bus or a descriptor.
pub record IsLoose (live : LiveSink) : Type 0 where
  pub no_bus : live.sink.attached ≡ false
  pub no_members : live.posix.members ≡ []

sinks_of-leave : (fd : ℕ) (lives : List LiveSink) → sinks_of (leave_sinks fd lives) ≡ sinks_of lives
sinks_of-leave fd [] = refl
sinks_of-leave fd (l ∷ ls) = ap (λ ss. l.sink ∷ ss) (sinks_of-leave fd ls)

sinks_of-destroy :
    (ss : List SinkFd) (lives : List LiveSink)
    → sinks_of (destroy_sinkfds ss lives) ≡ sinks_of lives
unfolding destroy_sinkfds
sinks_of-destroy [] lives = refl
sinks_of-destroy (s ∷ ss) lives =
    sinks_of-destroy ss (leave_sinks s.fd lives) ∙ sinks_of-leave s.fd lives

del_sink-first : (sink : Sink Run) (ss : List (Sink Run)) → del_sink sink (sink ∷ ss) ≡ ss
unfolding del_sink
del_sink-first sink ss = ground arith

fini_sinks-IsLoose :
    (lives : List LiveSink) (bus : Bus)
    → let b = record bus { sinkfds = [] } in
      (offs : List LiveSink) × (fini_sinks lives (sinks_of lives) b ≡ (offs, [], b))
      × All IsLoose offs
unfolding fini_sinks lacking
fini_sinks-IsLoose [] bus = ([], refl, tt)
fini_sinks-IsLoose (l ∷ ls) bus =
    let b = record bus { sinkfds = [] } in
    let (e, _) = disable_one-lacking l (l.sink ∷ sinks_of ls) b tt in
    let (offs, f, h) = fini_sinks-IsLoose ls bus in
    let off : LiveSink = record {
      sink = record l.sink { attached = false };
      posix = record l.posix { members = [] };
    } in
    (
      off ∷ offs,
      rw (e, del_sink-first l.sink (sinks_of ls), f) refl,
      (record { no_bus = refl; no_members = refl }, h),
    )

-- Whatever is on the bus and on its sinks, `apibus_destroy` leaves nothing on any list of the bus, and
-- every sink without a bus and without a descriptor.
pub apibus_destroy-IsLoose :
    (lives : List LiveSink) (bus : Bus)
    → (offs : List LiveSink) × (apibus_destroy lives bus ≡ (offs, [], emptied bus))
      × All IsLoose offs
unfolding apibus_destroy
apibus_destroy-IsLoose lives bus =
    let left = destroy_sinkfds bus.sinkfds lives in
    let (offs, e, h) = fini_sinks-IsLoose left (emptied bus) in
    (
      offs,
      ap (λ ss. fini_sinks left ss (emptied bus)) (sym (sinks_of-destroy bus.sinkfds lives)) ∙ e,
      h,
    )
