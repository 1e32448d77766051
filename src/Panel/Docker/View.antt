-- ===== src/Panel/Docker/View.antt =====
-- docker/page.tsx: the tabs and what they show of the containers, the images and the stacks.
use xp_panel.Shared.{
  ℕ, ◌*◌, Text, codes, Bool, false, Option, none, some, List, [], ◌∷◌, ◌++◌, map, take, drop,
  get_or, get_elem?, if◌then◌else◌, text_eq,
}
use xp_panel.Api.Docker.{ContainerAction, ComposeAction}
use xp_panel.Panel.Compose.{ComposeProject}
use xp_panel.Panel.Inline.{RowsView, rows_view}
use xp_panel.Panel.Docker.{container_buttons, stack_buttons}

pub record PortMapping : Type 0 where
  pub host_port : Text
  pub container_port : Text
  pub protocol : Text

-- The amounts are floating point, of a type that is a parameter; the labels are not read.
pub record Container (Amount : Type 0) : Type 0 where
  pub id : Text
  pub container_id : Text
  pub organization_id : Text
  pub name : Text
  pub image : Text
  pub status : Text
  pub state : Text
  pub ports : Option (List PortMapping)
  pub cpu_percent : Amount
  pub memory_usage_mb : Amount
  pub memory_limit_mb : Amount
  pub created_at : Text

pub record DockerImage (Amount : Type 0) : Type 0 where
  pub id : Text
  pub tags : Option (List Text)
  pub size_mb : Amount
  pub created : ℕ

abbrev status_colors : List (Text × Text)
status_colors =
    (codes "running", codes "bg-green-500")
    ∷ (codes "exited", codes "bg-muted-foreground")
    ∷ (codes "paused", codes "bg-amber-500")
    ∷ (codes "created", codes "bg-blue-500")
    ∷ (codes "restarting", codes "bg-amber-500")
    ∷ (codes "stopped", codes "bg-muted-foreground")
    ∷ []

unfoldable color_in : List (Text × Text) → Text → Text
color_in [] s = codes "bg-muted-foreground"
color_in ((k, c) ∷ cs) s = let rest = color_in cs s in if text_eq k s then c else rest

-- `ports.map(…).join(', ')`.
abbrev pub port_text : PortMapping → Text
port_text p = p.host_port ++ codes ":" ++ p.container_port

abbrev pub ports_text : List PortMapping → Text
ports_text [] = []
ports_text (p ∷ []) = port_text p
ports_text (p ∷ q ∷ ps) = port_text p ++ codes ", " ++ ports_text (q ∷ ps)

abbrev shown_ports : List PortMapping → Option Text
shown_ports [] = none
shown_ports (p ∷ ps) = some (ports_text (p ∷ ps))

abbrev first_port : Option PortMapping → Text
first_port none = codes "8080"
first_port (some p) = p.host_port

-- The lines under a container are made up from its name and port; the server is not asked for its log.
abbrev pub log_lines : Text → Text → List PortMapping → List Text
log_lines now name ports =
    map (λ s. codes "[" ++ now ++ codes "] " ++ s)
      ((codes "Starting " ++ name ++ codes "...")
        ∷ (codes "Container ready on " ++ first_port (get_elem? ports 0))
        ∷ codes "GET /health 200 2ms"
        ∷ codes "Request processed successfully"
        ∷ codes "Cache hit ratio: 94%"
        ∷ [])

pub record ContainerRow : Type 0 where
  pub dot : Text
  pub row_name : Text
  pub row_image : Text
  pub cpu : Text
  pub memory : Text
  pub row_ports : Option Text
  pub is_running : Bool
  pub buttons : List ContainerAction
  pub logs : Option (List Text)

pub record ImageRow : Type 0 where
  pub short_id : Text
  pub tag : Text
  pub size : Text
  pub made : Text

pub record StackRow : Type 0 where
  pub stack_name : Text
  pub stack_status : Text
  pub runs : Bool
  pub stack_buttons_shown : List ComposeAction

abbrev logs_open : Option Text → Text → Bool
logs_open none i = false
logs_open (some j) i = text_eq j i

-- `toFixed`, the printing of a number and of a date, and the present time are parameters.
module _ {Amount : Type 0} (to_fixed : ℕ → Amount → Text) (printed : Amount → Text)
    (to_date : ℕ → Text) (now : Text) where
  unfoldable pub container_row : Option Text → Container Amount → ContainerRow
  unfolding color_in container_buttons
  container_row expanded c = record {
    dot = color_in status_colors c.status;
    row_name = c.name;
    row_image = c.image;
    cpu = to_fixed 1 c.cpu_percent ++ codes "% CPU";
    memory =
        to_fixed 0 c.memory_usage_mb ++ codes " / " ++ printed c.memory_limit_mb ++ codes " MB";
    row_ports = shown_ports (get_or c.ports []);
    is_running = text_eq c.status (codes "running");
    buttons = container_buttons c.status;
    logs =
        if logs_open expanded c.id then some (log_lines now c.name (get_or c.ports [])) else none;
  }

  abbrev pub container_rows :
      Option Text → Bool → Option (List (Container Amount)) → RowsView ContainerRow
  container_rows expanded = rows_view (container_row expanded)

  -- `id.substring(7, 19)`; an image that has no tag shows as `<none>`.
  unfoldable pub image_row : DockerImage Amount → ImageRow
  image_row g = record {
    short_id = take 12 (drop 7 g.id);
    tag = get_or (get_elem? (get_or g.tags []) 0) (codes "<none>");
    size = to_fixed 0 g.size_mb ++ codes " MB";
    made = to_date (g.created * 1000);
  }

unfoldable pub stack_row : ComposeProject → StackRow
unfolding stack_buttons
stack_row p = record {
  stack_name = p.name;
  stack_status = p.status;
  runs = text_eq p.status (codes "running");
  stack_buttons_shown = stack_buttons p.status;
}

abbrev pub stack_rows : Bool → Option (List ComposeProject) → RowsView StackRow
stack_rows = rows_view stack_row

-- The labels of the tabs; how a number is printed is a parameter.
abbrev pub tab_labels : (ℕ → Text) → ℕ → ℕ → ℕ → List Text
tab_labels decimal containers images projects =
    (codes "Containers (" ++ decimal containers ++ codes ")")
    ∷ (codes "Images (" ++ decimal images ++ codes ")")
    ∷ (codes "Compose (" ++ decimal projects ++ codes ")")
    ∷ []
