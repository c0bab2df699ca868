-- ===== src/WorkloadWrapper/Engine.antt =====
-- What internal/workload/podman/podman.go asks of podman's service, which is not part of this repository.
use flotta_device_worker.Prelude.{
  ℕ, ◌≡◌, Bool, true, false, ◌&&◌, Option, none, some, String, List, Map, string_eq, ◌==◌,
  if◌then◌else◌,
}

-- A pod of a listing.
pub record ListedPod : Type 0 where
  pub id : String
  pub name : String
  pub status : String

-- An inspected pod: its name and the ids of its containers.
pub record PodInfo : Type 0 where
  pub name : String
  pub containers : List String

-- An inspected container: its name and its address in each network.
pub record ContainerInfo : Type 0 where
  pub name : String
  pub networks : Map String String

-- A pod of a report on a played manifest: its id and those of its containers.
pub record PlayedPod : Type 0 where
  pub id : String
  pub containers : List String

-- What is known of podman's version: no answer, a text that is no version, or its two first numbers.
pub data Version : Type 0 where
  no_version unparsable : Version
  numbers : ℕ → ℕ → Version

-- Podman's service, with a state of a type `P`. `pod` says whether a pod, named by its id or its name,
-- is there, and `secret` what a secret holds; the laws are the service's documented behaviour.
pub record Engine (P : Type 0) : Type 0 where
  pub version : P → Version
  pub list : P → Option (List ListedPod)
  pub exists : String → P → Option Bool
  pub remove : String → P → Bool × P
  pub stop : String → P → Bool × P
  pub start : String → P → Bool × P
  pub inspect : String → P → Option PodInfo
  pub inspect_container : String → P → Option ContainerInfo
  pub play : String → String → Map String String → P → Option (List PlayedPod) × P
  pub secrets : P → Option (List String)
  pub remove_secret : String → P → Bool × P
  pub create_secret : String → String → P → Bool × P
  pub generate : String → ℕ → P → Option (Map String String)
  pub pod : String → P → Bool
  pub secret : String → P → Option String
  pub exists_lem : (n : String) (p : P) (b : Bool) → exists n p ≡ some b → b ≡ pod n p
  pub removes : (n : String) (p : P) → (remove n p).0 ≡ true → pod n (remove n p).1 ≡ false
  pub removes_secret :
      (n : String) (p : P) (m : String)
      → secret m (remove_secret n p).1
        ≡ (if (remove_secret n p).0 && n == m then none else secret m p)
  pub creates_secret :
      (n d : String) (p : P) (m : String)
      → secret m (create_secret n d p).1
        ≡ (if (create_secret n d p).0 && n == m then some d else secret m p)
