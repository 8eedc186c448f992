-- ===== src/Bridge/Session/Accounts.antt =====
-- internal/bridge/bridge.go: a bridge does not lose a player that it started.
use sonospoof.Base.{
  ℕ, zero, suc, ◌<◌, Bool, true, false, ◌≡◌, ◌≢◌, refl, sym, ◌∙◌, ap, ◌⊎◌, inl, inr, Option, none,
  some, List, [], ◌∷◌, ◌++◌, Text, codes, same→≢, itoa, arith,
}
use mathlib.Core.Bool.{true≢false}
use sonospoof.Sonos.Zones.{Zone}
use sonospoof.Sonos.Client
use sonospoof.Sonos.Client.{
  Post, Answer, Result, av_transport_path, av_transport_type, rendering_path, rendering_type,
  clamp_volume, soap, soap_post, read_answer, of_play, play_after, set_stream_and_play, stream_args,
}
use sonospoof.Bridge.Session.{
  Bridge, Event, new, pick, start_begin, start_command, command_done, command_next, start_finish,
  set_flag, clear_flag, send_stop, stop_begin, stop_command, set_volume, step, run, is_failed,
}

abbrev pub play_action : Text
play_action = codes "\"urn:schemas-upnp-org:service:AVTransport:1#Play\""

abbrev pub stop_action : Text
stop_action = codes "\"urn:schemas-upnp-org:service:AVTransport:1#Stop\""

-- If the player sounds, some call accounts for it: the flag is set, or a `Start` is about to set
-- it, or a `Stop` is about to command the player, or the last such command failed.
abbrev pub IsAccounted {ℓ} : {Network : Type ℓ} → (Network → Bool) → Bridge Network → Type 0
IsAccounted audible b =
    audible b.net ≡ true
    → (b.playing ≡ true) ⊎ (0 < b.commanded) ⊎ (0 < b.stopping) ⊎ (b.unstopped ≡ true)

read_answer_done :
    (action : Text) (a : Answer) (body : Text)
    → a ≡ Answer.answered 200 body
    → read_answer action a ≡ Result.done body
unfolding read_answer
read_answer_done action a body e = rw e refl

module _ {ℓ} {Network : Type ℓ} (http : Network → Post → Network × Answer)
    (audible : Network → Bool)
    (only_play : (net : Network) (p : Post)
      → audible (http net p).0 ≡ true
      → (audible net ≡ true)
        ⊎ ((p.soap_action ≡ play_action)
            × (body : Text) × ((http net p).1 ≡ Answer.answered 200 body)))
    (stop_obeyed : (net : Network) (p : Post) (body : Text)
      → p.soap_action ≡ stop_action
      → (http net p).1 ≡ Answer.answered 200 body
      → audible (http net p).0 ≡ false) where
  other_action :
      (net : Network) (p : Post)
      → p.soap_action ≢ play_action
      → audible (http net p).0 ≡ true
      → audible net ≡ true
  other_action net p other h = elim (only_play net p h) [
    | inl same_as ↦ same_as
    | inr (is_play, _, _) ↦ absurd (other is_play)
  ]

  play_sound :
      (net : Network) (ip : Text) (sent : Network × Result Text)
      → audible (play_after http ip sent).0 ≡ true
      → (audible sent.0 ≡ true) ⊎ ((body : Text) × ((play_after http ip sent).1 ≡ Result.done body))
  unfolding play_after
  play_sound net ip (mid, Result.failed e) h = inl h
  play_sound net ip (mid, Result.done _) h = elim (only_play mid _ h) [
    | inl before ↦ inl before
    | inr (_, body, accepted) ↦
        inr (body, ap of_play (read_answer_done (codes "Play") _ body accepted))
  ]

  set_stream_sound :
      (net : Network) (ip url title : Text)
      → audible (set_stream_and_play http net ip url title).0 ≡ true
      → (audible net ≡ true)
        ⊎ ((body : Text) × ((set_stream_and_play http net ip url title).1 ≡ Result.done body))
  unfolding set_stream_and_play
  set_stream_sound net ip url title h =
      let first : Post =
        soap_post ip av_transport_path av_transport_type (codes "SetAVTransportURI")
          (stream_args url title) in
      let sent : Network × Result Text =
        soap http net ip av_transport_path av_transport_type (codes "SetAVTransportURI")
          (stream_args url title) in
      elim (play_sound net ip sent h) [
        | inr played ↦ inr played
        | inl mid ↦ inl (other_action net first (same→≢ first.soap_action play_action refl) mid)
      ]

  start_begin-IsAccounted :
      (b : Bridge Network) (random : Option (List ℕ)) (name : Text)
      → IsAccounted audible b
      → IsAccounted audible (start_begin http b random name)
  unfolding start_begin
  start_begin-IsAccounted b none name h = h
  start_begin-IsAccounted b (some bytes) name h = h

  command_done-IsAccounted :
      (b : Bridge Network) (rest : List (Text × Text)) (sent : Network × Result Text)
      → IsAccounted audible b
      → (audible sent.0 ≡ true
          → (audible b.net ≡ true) ⊎ ((body : Text) × (sent.1 ≡ Result.done body)))
      → IsAccounted audible (command_done http b rest sent)
  unfolding command_done
  command_done-IsAccounted b rest (net, Result.failed e) h sound loud = elim (sound loud) [
    | inl before ↦ h before
    | inr (body, e) ↦ absurd (cc)
  ]
  command_done-IsAccounted b rest (net, Result.done body) h sound loud = inr (inl (omega arith))

  command_next-IsAccounted :
      (b : Bridge Network) (next : Option ((Text × Text) × List (Text × Text)))
      → IsAccounted audible b
      → IsAccounted audible (command_next http b next)
  unfolding command_next
  command_next-IsAccounted b none h = h
  command_next-IsAccounted b (some ((url, title), rest)) h =
      command_done-IsAccounted b rest (set_stream_and_play http b.net b.zone.ip url title) h
        (set_stream_sound b.net b.zone.ip url title)

  set_flag-IsAccounted :
      (b : Bridge Network) (n : ℕ) → IsAccounted audible b → IsAccounted audible (set_flag http b n)
  set_flag-IsAccounted b zero h = h
  set_flag-IsAccounted b (suc n) h = λ loud. inl refl

  clear_flag-IsAccounted :
      (b : Bridge Network) (flag : Bool)
      → b.playing ≡ flag
      → IsAccounted audible b
      → IsAccounted audible (clear_flag http b flag)
  clear_flag-IsAccounted b true e h = λ loud. inr (inr (inl (omega arith)))
  clear_flag-IsAccounted b false e h =
      λ loud. elim (h loud) [ inl set ↦ absurd (true≢false (sym set ∙ e)) | inr other ↦ inr other ]

  stop_result :
      (b : Bridge Network) (n : ℕ) (sent : Network × Result Text)
      → ((body : Text) → sent.1 ≡ Result.done body → audible sent.0 ≡ false)
      → IsAccounted audible
          (record b { net = sent.0; stopping = n; unstopped = is_failed http sent.1 })
  stop_result b n (net, Result.failed e) obeyed = λ loud. inr (inr (inr refl))
  stop_result b n (net, Result.done body) obeyed =
      λ loud. absurd (true≢false (sym loud ∙ obeyed body refl))

  read_answer_sound :
      (action : Text) (a : Answer) (body : Text)
      → read_answer action a ≡ Result.done body
      → a ≡ Answer.answered 200 body
  unfolding read_answer
  read_answer_sound action Answer.unreachable body h = cc
  read_answer_sound action (Answer.answered status text) body h = ground arith

  send_stop-IsAccounted :
      (b : Bridge Network) (n : ℕ)
      → IsAccounted audible b
      → IsAccounted audible (send_stop http b n)
  unfolding soap_post read_answer Client.stop
  send_stop-IsAccounted b zero h = h
  send_stop-IsAccounted b (suc n) h =
      let post : Post =
        soap_post b.zone.ip av_transport_path av_transport_type (codes "Stop")
          (codes "<InstanceID>0</InstanceID><Speed>1</Speed>") in
      stop_result b n (Client.stop http b.net b.zone.ip) λ body e.
        stop_obeyed b.net post body refl
          (read_answer_sound (codes "Stop") (http b.net post).1 body e)

  set_volume-IsAccounted :
      (b : Bridge Network) (vol : ℕ)
      → IsAccounted audible b
      → IsAccounted audible (set_volume http b vol)
  unfolding set_volume Client.set_volume
  set_volume-IsAccounted b vol h = λ loud.
      let post : Post = soap_post b.zone.ip rendering_path rendering_type (codes "SetVolume") (
        codes "<InstanceID>0</InstanceID><Channel>Master</Channel><DesiredVolume>"
        ++ itoa (clamp_volume vol)
        ++ codes "</DesiredVolume>") in
      h (other_action b.net post (same→≢ post.soap_action play_action refl) loud)

  step-IsAccounted :
      (b : Bridge Network) (e : Event) → IsAccounted audible b → IsAccounted audible (step http b e)
  unfolding step start_command start_finish stop_begin stop_command
  step-IsAccounted b (Event.start_called random name) = start_begin-IsAccounted b random name
  step-IsAccounted b (Event.primed i) = command_next-IsAccounted b (pick i b.waiting)
  step-IsAccounted b (Event.flag_set) = set_flag-IsAccounted b b.commanded
  step-IsAccounted b (Event.stop_called) = clear_flag-IsAccounted b b.playing refl
  step-IsAccounted b (Event.stop_sent) = send_stop-IsAccounted b b.stopping
  step-IsAccounted b (Event.volume_set vol) = set_volume-IsAccounted b vol

  steps-IsAccounted :
      (b : Bridge Network) (es : List Event)
      → IsAccounted audible b
      → IsAccounted audible (run http b es)
  unfolding run
  steps-IsAccounted b [] h = h
  steps-IsAccounted b (e ∷ es) h = steps-IsAccounted (step http b e) es (step-IsAccounted b e h)

  new-IsAccounted :
      (z : Zone) (host : Text) (net : Network)
      → audible net ≡ false
      → IsAccounted audible (new z host net)
  unfolding new
  new-IsAccounted z host net quiet loud = absurd (true≢false (sym loud ∙ quiet))

  -- For a player that starts only on a `Play` that it accepts, and falls silent on a `Stop` that it
  -- accepts: whatever the order in which calls of Start, Stop and SetVolume, the ends of waits and
  -- the commands come, if the player sounds then the bridge knows: its flag is set, or a Start is
  -- about to set it, or a Stop is about to command the player, or the last such command failed.
  pub run-IsAccounted :
      (z : Zone) (host : Text) (net : Network) (es : List Event)
      → audible net ≡ false
      → IsAccounted audible (run http (new z host net) es)
  run-IsAccounted z host net es quiet =
      steps-IsAccounted (new z host net) es (new-IsAccounted z host net quiet)
