-- ===== src/Devonian/Reflect/Marker/Tests.antt =====
-- A marker for a record whose parts are encoded to themselves, in a body with another marker.
use atomic_plugins.Prelude.{String, true, none, some, List, [], ◌≡◌, refl, sym, subst}
use atomic_plugins.Devonian.Reflect.Copies.{OriginRef, Settings, Progress, of_issues, reflect_item}
use atomic_plugins.Devonian.Reflect.Client.{Item, Client, Side}
use atomic_plugins.Devonian.Reflect.Marker.{
  chars, text_from, is_space_code, past, skip_spaces, closing, payload_of, tag, match_at,
  first_match, without_markers, fewer_breaks, trim_end, stripped, strip_marker, has_marker,
  render_marker, fields_of, parse_marker, embed_marker, markers_for,
}
use atomic_plugins.Devonian.Reflect.Marker.Fields.{IsSafe}
use atomic_plugins.Devonian.Reflect.Marker.Echo.{reflect_item-embed_marker}
use atomic_plugins.Devonian.Reflect.Marker.RoundTrip.{OpensNone, IsTight, parse_marker-embed_marker}

abbrev same : String → String
same s = s

abbrev origin : OriginRef
origin = record { system = "pd"; kind = "issue"; id = "1" }

-- The marker goes, and so does the line that it leaves empty.
marker_removed : strip_marker "dv" "a\n\n\n<!-- dv:origin system=x kind=y id=z -->" ≡ "a"
unfolding strip_marker stripped without_markers fewer_breaks trim_end skip_spaces chars text_from
    match_at past payload_of closing tag is_space_code
marker_removed = refl

embedded :
    embed_marker same "dv" "a<!-- dv:origin id=2 -->" origin
    ≡ "a\n\n<!-- dv:origin system=pd kind=issue id=1 -->"
unfolding embed_marker stripped without_markers fewer_breaks trim_end skip_spaces chars text_from
    match_at past payload_of closing tag is_space_code render_marker fields_of
embedded = refl

marker_seen : has_marker "dv" "a <!--dv:origin id=2--> b" ≡ true
unfolding has_marker first_match skip_spaces chars match_at past payload_of closing tag
    is_space_code
marker_seen = refl

-- A comment, a marker of another namespace and one of this namespace.
abbrev marked_body : String
marked_body = "<!-- b --><!-- x:origin id=1 -->a<!-- dv:origin id=2 -->"

stripped_body : stripped "dv" (chars marked_body) ≡ chars "<!-- b --><!-- x:origin id=1 -->a"
unfolding stripped without_markers fewer_breaks trim_end skip_spaces chars match_at past payload_of
    closing tag is_space_code
stripped_body = refl

opens_none : OpensNone "dv" (chars "<!-- b --><!-- x:origin id=1 -->a")
unfolding past skip_spaces tag chars is_space_code
opens_none = (
  refl,
  (
    refl,
    (
      refl,
      (
        refl,
        (
          refl,
          (
            refl,
            (
              refl,
              (
                refl,
                (
                  refl,
                  (
                    refl,
                    (
                      refl,
                      (
                        refl,
                        (
                          refl,
                          (
                            refl,
                            (
                              refl,
                              (
                                refl,
                                (
                                  refl,
                                  (
                                    refl,
                                    (
                                      refl,
                                      (
                                        refl,
                                        (
                                          refl,
                                          (
                                            refl,
                                            (
                                              refl,
                                              (
                                                refl,
                                                (
                                                  refl,
                                                  (
                                                    refl,
                                                    (
                                                      refl,
                                                      (
                                                        refl,
                                                        (refl, (refl, (refl, (refl, (refl, tt))))),
                                                      ),
                                                    ),
                                                  ),
                                                ),
                                              ),
                                            ),
                                          ),
                                        ),
                                      ),
                                    ),
                                  ),
                                ),
                              ),
                            ),
                          ),
                        ),
                      ),
                    ),
                  ),
                ),
              ),
            ),
          ),
        ),
      ),
    ),
  ),
)

tight : IsTight "dv"
unfolding skip_spaces tag chars is_space_code past
tight = (
  λ s. refl,
  λ s. refl,
  ((refl, (refl, (refl, (refl, (refl, (refl, (refl, (refl, (refl, tt)))))))))),
)

origin-IsSafe : IsSafe same origin
unfolding chars is_space_code
origin-IsSafe = (
  ((refl, refl), ((refl, refl), tt)),
  ((refl, refl), ((refl, refl), ((refl, refl), ((refl, refl), ((refl, refl), tt))))),
  ((refl, refl), tt),
)

parse_marker-embed_marker_example :
    parse_marker some "dv" (embed_marker same "dv" marked_body origin) ≡ some origin
parse_marker-embed_marker_example =
    parse_marker-embed_marker same "dv" some marked_body origin
      (subst (OpensNone "dv") (sym stripped_body) opens_none) tight origin-IsSafe (refl, refl, refl)

abbrev idle : Client (List Item)
idle = record {
  sync = λ s. s;
  list = λ s. s;
  get = λ s id. none;
  create = λ s d. (s, none);
  pending_writes = λ s. [];
}

abbrev side : String → Side (List Item)
side name = record {
  system = name;
  issues = idle;
  comments = λ id. idle;
  set_state = λ s id state. (s, none);
  now = λ s. 0;
  sleep = λ s. s;
}

abbrev settings : Settings
settings = record {
  markers = markers_for same some "dv";
  max_attempts = 5;
  drain_timeout = 15000;
  bidirectional = true;
}

abbrev copy : Item
copy = record {
  id = "9";
  title = some "Bug";
  body = some (embed_marker same "dv" marked_body origin);
  state = none;
}

abbrev start : Progress (List Item)
start = record { to = []; links = []; summary = record { created = []; updated = []; errors = [] } }

reflect_item-embed_marker_example :
    reflect_item settings (of_issues "fo" "pd") (side "fo") (side "pd") idle [] copy start ≡ start
reflect_item-embed_marker_example =
    reflect_item-embed_marker same some "dv" settings (of_issues "fo" "pd") (side "fo") (side "pd")
      idle [] copy start marked_body origin refl refl refl
      (subst (OpensNone "dv") (sym stripped_body) opens_none) tight origin-IsSafe (refl, refl, refl)

-- The removal of a marker can leave another one.
marker_remains :
    strip_marker "dv" "<!-<!-- dv:origin x -->- dv:origin id=2 -->" ≡ "<!-- dv:origin id=2 -->"
unfolding strip_marker stripped without_markers fewer_breaks trim_end skip_spaces chars text_from
    match_at past payload_of closing tag is_space_code
marker_remains = refl
