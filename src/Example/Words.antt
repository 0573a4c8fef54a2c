-- ===== src/Example/Words.antt =====
-- The words that the command line knows.
use serf_cpp.Prelude.{String, str_eq, if◌then◌else◌}

pub data Word : Type 0 where
  quit help version join auth use_key install remove list members tag rmtag query coord event : Word
  respond force_leave leave stop monitor stream stats unknown : Word

unfoldable pub word_of : String → Word
word_of c =
    if str_eq c "quit"
    then quit
    else if str_eq c "help"
    then help
    else if str_eq c "version"
    then version
    else if str_eq c "join"
    then join
    else if str_eq c "auth"
    then auth
    else if str_eq c "use"
    then use_key
    else if str_eq c "install"
    then install
    else if str_eq c "remove"
    then remove
    else if str_eq c "list"
    then list
    else if str_eq c "members"
    then members
    else if str_eq c "tag"
    then tag
    else if str_eq c "rmtag"
    then rmtag
    else if str_eq c "query"
    then query
    else if str_eq c "coord"
    then coord
    else if str_eq c "event"
    then event
    else if str_eq c "respond"
    then respond
    else if str_eq c "force-leave"
    then force_leave
    else if str_eq c "leave"
    then leave
    else if str_eq c "stop"
    then stop
    else if str_eq c "monitor"
    then monitor
    else if str_eq c "stream"
    then stream
    else if str_eq c "stats"
    then stats
    else unknown
