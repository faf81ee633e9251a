-- ===== src/Host/Models.antt =====
-- What is known of a host (src/amd_ai/host/models.py, and `GpuPciInfo` of parsers.py).
use strix_halo_rocm_toolkit.Prelude.{ℕ, String, Bool, Option, List, Dict}

pub record GpuPciInfo : Type 0 where
  pub pci_id : Option String
  pub driver : Option String
  pub raw : String

pub data DockerDistribution : Type 0 where
  docker_ce ubuntu_docker_io mixed external missing : DockerDistribution

pub record InstalledPackage : Type 0 where
  pub name : String
  pub version : String
  pub origin : Option String

pub record AptSourceFile : Type 0 where
  pub path : String
  pub content : String

pub record HostSnapshot : Type 0 where
  pub os_id : String
  pub os_version : String
  pub architecture : String
  pub kernel : String
  pub gpu : GpuPciInfo
  pub mem_total_kib : ℕ
  pub swap_total_kib : ℕ
  pub page_size : ℕ
  pub kernel_args : Dict (Option String)
  pub ttm_pages_limit : Option ℕ
  pub dmi_memory_bytes : Option ℕ
  pub device_gids : Dict ℕ
  pub current_group_ids : List ℕ
  pub packages : List InstalledPackage
  pub apt_sources : List AptSourceFile
  pub dkms_status : String
  pub docker_version : Option String
  pub docker_buildx_version : Option String
  pub docker_buildx_error : Option String
  pub docker_distribution : DockerDistribution
  pub kernel_oem_617_candidate : Option String
  pub display_manager_loaded : Bool
  pub display_manager_active : Bool
  pub dmesg : String
  pub dmesg_available : Bool
  pub dedicated_vram_mib : Option ℕ
