-- ===== src/Prompt/Commands.antt =====
-- The commands of src/command_prompt.rs.
use boo.Base.{List, [], ◌∷◌}
use boo.Prompt.{CommandDef, command}

abbrev pub commands : List CommandDef
commands =
    command "split-right" "split pane to the right" ""
    ∷ command "split-down" "split pane downward" ""
    ∷ command "split-left" "split pane to the left" ""
    ∷ command "split-up" "split pane upward" ""
    ∷ command "resize-left" "resize split left" "[n]"
    ∷ command "resize-right" "resize split right" "[n]"
    ∷ command "resize-up" "resize split up" "[n]"
    ∷ command "resize-down" "resize split down" "[n]"
    ∷ command "close-pane" "close focused pane" ""
    ∷ command "break-pane" "move the focused pane into a new tab" ""
    ∷ command "new-tab" "create a new tab" ""
    ∷ command "next-tab" "switch to next tab" ""
    ∷ command "prev-tab" "switch to previous tab" ""
    ∷ command "close-tab" "close current tab" ""
    ∷ command "goto-tab" "jump to a tab" "<n>"
    ∷ command "next-layout" "switch to the next preset layout" ""
    ∷ command "prev-layout" "switch to the previous preset layout" ""
    ∷ command "select-layout" "set a specific pane layout"
        "<manual|even-horizontal|even-vertical|main-horizontal|main-vertical|tiled>"
    ∷ command "rebalance-layout" "spread the current split tree evenly" ""
    ∷ command "last-tab" "jump to the last tab" ""
    ∷ command "next-pane" "focus next pane" ""
    ∷ command "prev-pane" "focus previous pane" ""
    ∷ command "swap-pane-next" "swap focused pane with the next pane" ""
    ∷ command "swap-pane-prev" "swap focused pane with the previous pane" ""
    ∷ command "mark-pane" "mark the focused pane for later join/move operations" ""
    ∷ command "clear-marked-pane" "clear the marked pane" ""
    ∷ command "join-pane" "move the marked pane into the current split tree" "<right|down|left|up>"
    ∷ command "move-pane" "alias of join-pane using the marked pane" "<right|down|left|up>"
    ∷ command "rotate-panes-forward" "rotate pane positions forward" ""
    ∷ command "rotate-panes-backward" "rotate pane positions backward" ""
    ∷ command "copy-mode" "enter copy mode" ""
    ∷ command "command-prompt" "open command prompt" ""
    ∷ command "search" "open search" ""
    ∷ command "copy" "copy the current copy-mode selection to the clipboard" ""
    ∷ command "display-panes" "show pane numbers and jump directly to a pane" ""
    ∷ command "choose-buffer" "pick a previously copied buffer and paste it" ""
    ∷ command "choose-tree" "pick a pane from the current tab tree or another tab" ""
    ∷ command "find-window" "search tabs and visible pane content, then jump to a match" ""
    ∷ command "paste" "paste from clipboard" ""
    ∷ command "set-tab-title" "set the active tab title" "<title>"
    ∷ command "zoom" "toggle pane zoom" ""
    ∷ command "reload-config" "reload configuration" ""
    ∷ command "goto-line" "jump to line (copy mode)" "<n>"
    ∷ command "set" "set ghostty config value" "<key> <value>"
    ∷ command "load-layout" "load a saved layout" "<name>"
    ∷ command "save-layout" "save current layout" "<name>"
    ∷ command "list-layouts" "list available layouts" ""
    ∷ []
