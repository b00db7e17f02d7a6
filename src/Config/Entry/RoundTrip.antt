-- ===== src/Config/Entry/RoundTrip.antt =====
-- What the one-line form of an entry is read as.

use rfw.Text.Laws.{rsplit_once-append, rsplit_once-none, split-append, split_whole}
use rfw.Text.{Lacks, Text, codes, eq_ignore_ascii_case, rsplit_once, split, to_ascii_lowercase}
use rfw.Base.{
  >>=-eq-ok, All-append, List, [], ap, arith, list_beq_iff, map, map_err, map_err-eq-ok, nat_eq, ok,
  refl, some, true, ◌++◌, ◌∷◌, ◌≡◌,
}
use rfw.Config.Forwarder.{Protocol, as_str, tcp, udp}
use rfw.Config.PortSpan.{PortSpan, parse, show_span}
use rfw.Config.PortSpan.RoundTrip.{parse-show_span, show_span-Lacks}
use rfw.Config.Spec.{ForwarderSpec, invalid_span}
use rfw.Config.Spec.Bounds.{IsSpec, new-IsSpec, new_iff}
use rfw.Config.Entry.{cut_protocol, parse_forwarder_spec, spec_of_parts}
use rfw.Config.PortSpan.Bounds.{parse-IsSpan}

-- `local_host:local_port[-end]:remote_host:remote_port[-end]`.
pub entry : ForwarderSpec → Text
entry s =
    s.local_host
    ++ b':' ∷ (show_span s.local ++ b':' ∷ (s.remote_host ++ b':' ∷ show_span s.remote))

colon_free : (s : PortSpan) → Lacks b':' (show_span s)
colon_free s = show_span-Lacks b':' s (omega arith) (omega arith)

split-entry :
    (s : ForwarderSpec)
    → Lacks b':' s.local_host
    → Lacks b':' s.remote_host
    → split b':' (entry s)
      ≡ s.local_host ∷ show_span s.local ∷ s.remote_host ∷ show_span s.remote ∷ []
unfolding entry
split-entry s hl hr = rw (
  split-append b':' s.local_host _ hl,
  split-append b':' (show_span s.local) _ (colon_free s.local),
  split-append b':' s.remote_host _ hr,
  split_whole b':' (show_span s.remote) (colon_free s.remote),
)

spec_of_parts-entry :
    (t : Text) (s : ForwarderSpec)
    → IsSpec s
    → spec_of_parts t s.protocol
        (s.local_host ∷ show_span s.local ∷ s.remote_host ∷ show_span s.remote ∷ [])
      ≡ ok s
unfolding spec_of_parts
spec_of_parts-entry t s v =
    rw
      (
        parse-show_span s.local (codes "local") v.local_ok,
        parse-show_span s.remote (codes "remote") v.remote_ok,
      )
      ((new_iff s.local_host s.local s.remote_host s.remote s.protocol s).1 (refl, v.aligned))

Lacks-lowercase : (s : Text) → Lacks b'/' (map to_ascii_lowercase s) → Lacks b'/' s
Lacks-lowercase [] h = tt
Lacks-lowercase (c ∷ s) h = ((λ e. h.0 (ap to_ascii_lowercase e)), Lacks-lowercase s h.1)

same_lowercase :
    (s t : Text)
    → eq_ignore_ascii_case s t ≡ true
    → map to_ascii_lowercase s ≡ map to_ascii_lowercase t
same_lowercase s t =
    (list_beq_iff ⦃e = nat_eq⦄ (map to_ascii_lowercase s) (map to_ascii_lowercase t)).0

suffix_slash_free :
    (p : Protocol) (suffix : Text)
    → eq_ignore_ascii_case suffix (as_str p) ≡ true
    → Lacks b'/' suffix
suffix_slash_free tcp suffix h =
    Lacks-lowercase suffix (rw (same_lowercase suffix (codes "tcp") h) (omega arith))
suffix_slash_free udp suffix h =
    Lacks-lowercase suffix (rw (same_lowercase suffix (codes "udp") h) (omega arith))

cut_protocol_lem :
    (s body suffix : Text) (p : Protocol)
    → eq_ignore_ascii_case suffix (as_str p) ≡ true
    → cut_protocol s (some (body, suffix)) ≡ ok (body, p)
unfolding cut_protocol
cut_protocol_lem s body suffix tcp h = rw (same_lowercase suffix (codes "tcp") h, cut_protocol)
cut_protocol_lem s body suffix udp h = rw (same_lowercase suffix (codes "udp") h, cut_protocol)

-- An entry whose hosts hold no colon is read back from its text with a protocol suffix, in upper or
-- lower case.
pub parse_forwarder_spec-entry :
    (s : ForwarderSpec) (suffix : Text)
    → IsSpec s
    → Lacks b':' s.local_host
    → Lacks b':' s.remote_host
    → eq_ignore_ascii_case suffix (as_str s.protocol) ≡ true
    → parse_forwarder_spec (entry s ++ b'/' ∷ suffix) ≡ ok s
unfolding parse_forwarder_spec
parse_forwarder_spec-entry s suffix v hl hr h =
    rw
      (
        rsplit_once-append b'/' (entry s) suffix (suffix_slash_free s.protocol suffix h),
        cut_protocol_lem (entry s ++ b'/' ∷ suffix) (entry s) suffix s.protocol h,
        split-entry s hl hr,
      )
      (spec_of_parts-entry (entry s ++ b'/' ∷ suffix) s v)

slash_free : (s : PortSpan) → Lacks b'/' (show_span s)
slash_free s = show_span-Lacks b'/' s (omega arith) (omega arith)

entry_slash_free :
    (s : ForwarderSpec) → Lacks b'/' s.local_host → Lacks b'/' s.remote_host → Lacks b'/' (entry s)
unfolding entry
entry_slash_free s hl hr = All-append _ s.local_host _ hl (
  omega arith,
  All-append _ (show_span s.local) _ (slash_free s.local)
      (omega arith, All-append _ s.remote_host _ hr (omega arith, slash_free s.remote)),
)

-- Without a suffix an entry is read back as a TCP entry, if its hosts hold no colon and no slash.
pub parse_forwarder_spec-entry_tcp :
    (s : ForwarderSpec)
    → IsSpec s
    → s.protocol ≡ tcp
    → Lacks b':' s.local_host × Lacks b'/' s.local_host
    → Lacks b':' s.remote_host × Lacks b'/' s.remote_host
    → parse_forwarder_spec (entry s) ≡ ok s
unfolding parse_forwarder_spec
parse_forwarder_spec-entry_tcp s v e hl hr =
    rw
      (rsplit_once-none b'/' (entry s) (entry_slash_free s hl.1 hr.1), split-entry s hl.0 hr.0, ← e)
      (spec_of_parts-entry (entry s) s v)

spec_of_parts-IsSpec :
    (t : Text) (p : Protocol) (parts : List Text) (s : ForwarderSpec)
    → spec_of_parts t p parts ≡ ok s
    → IsSpec s
unfolding spec_of_parts
spec_of_parts-IsSpec t p (lh ∷ l ∷ rh ∷ r ∷ []) s h =
    let (local, local_ok, h') = >>=-eq-ok (map_err invalid_span (parse l (codes "local"))) _ h in
    let (remote, remote_ok, made) =
      >>=-eq-ok (map_err invalid_span (parse r (codes "remote"))) _ h' in
    new-IsSpec lh local rh remote p s
      (parse-IsSpan l _ local (map_err-eq-ok _ (parse l (codes "local")) local_ok))
      (parse-IsSpan r _ remote (map_err-eq-ok _ (parse r (codes "remote")) remote_ok)) made
spec_of_parts-IsSpec t p _ s h = cc

-- Every entry that is accepted has spans of `u16` ports on both sides, of equal length.
pub parse_forwarder_spec-IsSpec :
    (t : Text) (s : ForwarderSpec) → parse_forwarder_spec t ≡ ok s → IsSpec s
unfolding parse_forwarder_spec
parse_forwarder_spec-IsSpec t s h =
    let ((body, p), cut, made) = >>=-eq-ok (cut_protocol t (rsplit_once b'/' t)) _ h in
    spec_of_parts-IsSpec t p (split b':' body) s made
